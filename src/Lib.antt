-- ===== src/Lib.antt =====
-- A model of the NextBallUp backend: the processing jobs of uploaded game film, the worker runs
-- that carry them, the handlers of the API that start, cancel and requeue them, the billing ledger and
-- the permissions, the teams with their invites, the one-time secrets of a login, and the events of a film
-- with the clips proposed from them.
--
-- The program. The API (apps/api) accepts a video, checks the quota of the team's billing account
-- and queues a job for its transcode stage. The worker (apps/worker) dispatches pending jobs to
-- Celery, claims a job, runs its stage, and completes it, which queues the next stage. A job that is
-- cancelled by a coach, or whose worker stops sending heartbeats, is failed from outside while a run
-- may still be at work on it. All state is in PostgreSQL (packages/db).
--
-- The model.
--   Prelude: Boolean tests, lists as tables (`update_where` is UPDATE ... WHERE), integers.
--   Core: packages/core/src/nextballup_core, the enumerations, error codes and JSON values.
--   Db: packages/db/src/nextballup_db/models, the rows; `Db` is the record of the tables.
--   Worker/Jobs: apps/worker/src/nextballup_worker/runtime/jobs.py, the guarded transitions of a job
--     (`claim_job`, `touch_heartbeat`, `complete_job`, `fail_job`, `release_job_for_retry`).
--   Worker/Verify, Worker/Failure, Worker/Transcode: runtime/transcode.py, the transcode run.
--   Worker/CvStages, Worker/CvArtifacts, Worker/CvPipeline: runtime/cv_pipeline.py, the CV stages.
--   Worker/Dispatch: runtime/dispatch.py and routing.py.
--   Worker/Recovery: `recover_stale_jobs` of runtime/cleanup.py, `_terminal_failure` of tasks.py.
--   Worker/CandidateTags: `_sync_alpha_candidate_tags` of runtime/demo_preview.py, the jobs of a preview.
--   Api/Billing: apps/api/src/nextballup_api/billing.py, the ledger, the quotas and the release.
--   Api/Permissions: apps/api/src/nextballup_api/permissions.py.
--   Worker/AbandonedUploads: `cleanup_abandoned_uploads` of runtime/cleanup.py.
--   Api/Videos, Api/Cancel, Api/Uploads, Api/Requeue, Api/Deletion: the lookups, `cancel_processing`,
--     `complete_upload`, `requeue_processing`, `cancel_upload` and `delete_failed_video` of
--     apps/api/src/nextballup_api/routers/videos.py.
--   Api/Initiate: `initiate_upload` of routers/videos.py with its checks; Api/Storage: the keys and the
--     presigning of storage.py; Api/Events: the events of a video and their listing in routers/videos.py.
--   Clips: packages/clip_engine/src/nextballup_clips/proposals.py, the review queue.
--   Api/Teams, Api/Teams/Join: the handlers of apps/api/src/nextballup_api/routers/teams.py that write,
--     and Api/RateLimit: security/rate_limit.py of the same application.
--   Api/Mfa: security/mfa.py and the second factor of a login in routers/auth.py.
--   Api/PasswordReset: password_reset.py, with `request_password_reset` and `reset_password` of
--     routers/auth.py.
--   Api/Sessions: the rotation of refresh tokens and the logout of routers/auth.py.
--   System: the transactions of all these on the jobs as one step relation, and the life of a single
--     job as its specification.
--
-- Conventions. A function takes the database and returns it as committed, with the Python result
-- beside it. A run commits several times: what other sessions commit after each of its commits is an
-- argument `elsewhere`, so a theorem for every `elsewhere` holds for every interleaving of
-- transactions. The answers of the object store, the encoder, base64, the ceiling of a float quotient and
-- the broker are arguments.
-- A UUID is a number that is only compared, a timestamp a number of seconds, and a float column a
-- number of thousandths (of millionths in Clips). Every loop is structural recursion on a list or a
-- count, so no fuel is used but in `decimal`, where the number itself bounds the count of its digits, and
-- in `follow`, a client of the listing of events, for which one request more than there are events is enough.
--
-- Not modelled: row-level security, HTTP parsing, logs and metrics, the media subprocesses, payment
-- providers and the front end, which carry no logic of the services or stand outside;
-- the demo previews but for their jobs, registration, the enrolment of the second factor and the other cleanup passes, which are left to
-- further work.
pub mod Prelude
pub mod Core
pub mod Db
pub mod Worker
pub mod Api
pub mod Clips
pub mod System
