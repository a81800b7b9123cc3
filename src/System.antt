-- ===== src/System.antt =====
-- The transactions that the API and the worker commit on `processing_jobs`, as steps of one system,
-- and the runs that they make up in any order. The steps are those of jobs.py, dispatch.py,
-- cleanup.py (`recover_stale_jobs`), tasks.py (`_terminal_failure`), cv_pipeline.py and demo_preview.py
-- (`_sync_alpha_candidate_tags`) in the worker, and of `complete_upload`, `cancel_processing` and `requeue_processing` of the API. The deletion of
-- a video, with which its jobs go, is no step.
pub mod JobTable
pub mod Effects
pub mod Lifecycle
mod Tests
use nextballup.Prelude.{ℕ, ◌≡◌, Bool, true, false, Option, none, ◌==◌, find_where}
use nextballup.Core.Text.{Text}
use nextballup.Core.Enums.{ProcessingJobStage}
use nextballup.Core.Errors.{ErrorCode}
use nextballup.Db.{Db, User, Video, ProcessingJob}
use nextballup.Worker.Jobs.Laws.{WorkerOp, run_op}
use nextballup.Worker.Dispatch.{dispatch_job}
use nextballup.Worker.Recovery.{recover_job, terminal_failure}
use nextballup.Worker.CvStages.{WorkerSettings, queue_next_stage_if_enabled}
use nextballup.Worker.CandidateTags.{TagsOutcome, sync_alpha_candidate_tags}
use nextballup.Core.Json.{Fields}
use nextballup.Api.{ok}
use nextballup.Api.Uploads.{CompleteUploadRequest, ObjectStore, complete_upload}
use nextballup.Api.Cancel.{cancel_processing}
use nextballup.Api.Requeue.{requeue_processing}

-- A new UUID is the key of no row.
abbrev pub Fresh : ℕ → Db → Type 0
Fresh id db = find_where (λ j. j.id == id) db.jobs ≡ none

-- One committed transaction. `unrelated` stands for those that leave the jobs alone.
pub data Step : Db → Db → Type 0 where
  worker : (op : WorkerOp) (db : Db) → Step db (run_op op db)
  dispatched :
      (job : ProcessingJob) (task : Option ℕ) (db : Db) → Step db (dispatch_job job task db).1
  recovered : (job : ProcessingJob) (db : Db) → Step db (recover_job job db)
  ended :
      (job_id : ℕ) (code : ErrorCode) (message : Text) (fail_video : Bool) (db : Db)
      → Step db (terminal_failure job_id code message fail_video db)
  stage_queued :
      (video : Video) (stage : ProcessingJobStage) (settings : WorkerSettings) (new_id : ℕ)
      (db : Db)
      → Fresh new_id db
      → Step db (queue_next_stage_if_enabled video stage settings new_id db).1
  uploaded :
      (verified_only : Bool) (settings : WorkerSettings) (storage : Option ObjectStore)
      (user : User) (video_id : ℕ) (payload : CompleteUploadRequest) (new_id : ℕ) (db : Db)
      → Fresh new_id db
      → Step db (complete_upload verified_only settings storage user video_id payload new_id db).1
  cancelled :
      (verified_only : Bool) (user : User) (video_id : ℕ) (stage_text : Text) (db : Db) {k : ℕ}
      {after : Db}
      → cancel_processing verified_only user video_id stage_text db ≡ ok (k, after)
      → Step db after
  requeued :
      (verified_only : Bool) (user : User) (video_id : ℕ) (stage_text : Text)
      (storage : Option ObjectStore) (db : Db) {k : ℕ} {after : Db}
      → requeue_processing verified_only user video_id stage_text storage db ≡ ok (k, after)
      → Step db after
  previewed :
      (video : Video) (request_id new_id : ℕ) (outcome : TagsOutcome) (extra : Fields) (db : Db)
      → Fresh new_id db
      → Step db (sync_alpha_candidate_tags video request_id new_id outcome extra db)
  unrelated : {db after : Db} → after.jobs ≡ db.jobs → Step db after

-- A run of the system.
pub data Steps : Db → Db → Type 0 where
  done : {db : Db} → Steps db db
  onward : {db next after : Db} → Step db next → Steps next after → Steps db after

-- The one transaction that runs a job anew whatever its status.
abbrev pub is_preview : {db after : Db} → Step db after → Bool
is_preview (Step.worker _ _) = false
is_preview (Step.dispatched _ _ _) = false
is_preview (Step.recovered _ _) = false
is_preview (Step.ended _ _ _ _ _) = false
is_preview (Step.stage_queued _ _ _ _ _ _) = false
is_preview (Step.uploaded _ _ _ _ _ _ _ _ _) = false
is_preview (Step.cancelled _ _ _ _ _ _) = false
is_preview (Step.requeued _ _ _ _ _ _ _) = false
is_preview (Step.previewed _ _ _ _ _ _ _) = true
is_preview (Step.unrelated _) = false
