-- ===== src/Worker/Recovery.antt =====
-- apps/worker/src/nextballup_worker/runtime/cleanup.py: the recovery of jobs whose worker is
-- gone; apps/worker/src/nextballup_worker/tasks.py: the end of a job whose retries are used
-- up. `locked` tells the rows that SKIP LOCKED passes over, and `elsewhere` is what other sessions
-- commit before each row's turn, since the first commit gives up the other rows' locks.
pub mod Revoked
use mathlib.Core.Option
use nextballup.Prelude.{
  ℕ, ◌+◌, Bool, true, false, not, ◌&&◌, Option, none, some, List, [], ◌∷◌, ◌==◌, ltb, if◌then◌else◌,
  is_some, filter_where,
}
use nextballup.Core.Text.{Text, codes}
use nextballup.Core.Enums.{VideoStatus, stage_value, is_running}
use nextballup.Core.Errors.{ErrorCode, AuditAction, code_value}
use nextballup.Core.Json.{Json, Fields, set_field, dict_of, num_or_null}
use nextballup.Db.{Db, ProcessingJob, write_audit}
use nextballup.Worker.Jobs.{fail_job, set_video_status, get_job}
use nextballup.Worker.CvStages.{job_audit}

-- max(1, int(worker_stale_heartbeat_seconds))
unfoldable pub stale_limit : ℕ → ℕ
stale_limit seconds = if ltb seconds 1 then 1 else seconds

-- The WHERE clause; a NULL heartbeat is not selected.
unfoldable pub is_stale : ℕ → ℕ → ProcessingJob → Bool
is_stale seconds now j =
    is_running j.status
    && elim j.heartbeat_at [ none ↦ false | some beat ↦ ltb (beat + seconds) now ]

abbrev pub stale_metadata : ProcessingJob → Option Fields
stale_metadata job =
    some (set_field "stale_since" (num_or_null job.heartbeat_at) (dict_of job.result_metadata))

-- The body of the loop.
unfoldable pub recover_job : ProcessingJob → Db → Db
unfolding fail_job set_video_status write_audit
recover_job job db =
    let failed =
      (fail_job job.id ErrorCode.processing_stale_recovered (codes "heartbeat stale")
        (stale_metadata job) db).1 in
    let closed =
      (set_video_status job.video_id VideoStatus.failed
        (VideoStatus.processing ∷ VideoStatus.queued ∷ []) failed).1 in
    write_audit
      (job_audit AuditAction.video_processing_recovered_stale job (
        Fields.field "video_id" (Json.num job.video_id) (
          Fields.field "stage" (Json.str (stage_value job.stage))
            (Fields.field "stale_since" (num_or_null job.heartbeat_at) Fields.end))))
      closed

unfoldable pub recover_jobs : (ℕ → Db → Db) → List ProcessingJob → Db → List ℕ × Db
unfolding recover_job
recover_jobs elsewhere [] db = ([], db)
recover_jobs elsewhere (job ∷ jobs) db =
    let rest = recover_jobs elsewhere jobs (elsewhere job.id (recover_job job db)) in
    (job.id ∷ rest.0, rest.1)

unfoldable pub recover_stale_jobs : (ℕ → Bool) → (ℕ → Db → Db) → ℕ → Db → List ℕ × Db
unfolding recover_jobs is_stale stale_limit filter_where
recover_stale_jobs locked elsewhere seconds db =
    recover_jobs elsewhere
      (filter_where (λ j. is_stale (stale_limit seconds) db.now j && not (locked j.id)) db.jobs) db

-- The video is failed from any status, and only if the job was open.
unfoldable pub fail_video_of : Bool → ProcessingJob → Option ProcessingJob × Db → Db
unfolding set_video_status
fail_video_of fail_video job (none, db) = db
fail_video_of fail_video job (some _, db) =
    if fail_video then (set_video_status job.video_id VideoStatus.failed [] db).1 else db

unfoldable pub terminal_failure : ℕ → ErrorCode → Text → Bool → Db → Db
unfolding fail_job fail_video_of write_audit
terminal_failure job_id error_code error_message fail_video db = elim (get_job job_id db) [
  | none ↦ db
  | some job ↦
      write_audit
        (job_audit AuditAction.video_processing_failed job (
          Fields.field "video_id" (Json.num job.video_id) (
            Fields.field "stage" (Json.str (stage_value job.stage)) (
              Fields.field "error_code" (Json.str (code_value error_code)) (
                Fields.field "error_message" (Json.str error_message)
                  (Fields.field "source" (Json.str (codes "on_failure")) Fields.end))))))
        (fail_video_of fail_video job (fail_job job.id error_code error_message none db))
]
