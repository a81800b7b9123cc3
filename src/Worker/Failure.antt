-- ===== src/Worker/Failure.antt =====
-- apps/worker/src/nextballup_worker/runtime/transcode.py: the ownership test of a
-- claimed job, and what a failure of its work does. The row that the test reads refreshes the job
-- that the caller holds (`populate_existing`), so the metadata are those of that row.
pub mod Outcome
use Prim.Native.String.{String}
use mathlib.Core.Option
use nextballup.Prelude.{
  ℕ, ◌+◌, Bool, true, false, ◌&&◌, Option, none, some, List, [], ◌∷◌, ◌==◌, if◌then◌else◌, is_some,
  find_where, take,
}
use nextballup.Core.Text.{Text, codes}
use nextballup.Core.Enums.{VideoStatus, stage_value, is_running}
use nextballup.Core.Errors.{ErrorCode, AuditAction, code_value}
use nextballup.Core.Json.{Json, Fields, get_field, set_field, update_fields, dict_of}
use nextballup.Db.{Db, ProcessingJob, write_audit}
use nextballup.Worker.Errors.{
  ProcessingFailure, is_retryable, failure_code, failure_text, failure_details,
}
use nextballup.Worker.Jobs.{owned_by, fail_job, release_job_for_retry, set_video_status}
use nextballup.Worker.CvStages.{
  StageStatus, StageResult, skipped_result, job_audit, origin_fields, uploader_of,
}

-- The row that the statement of `_claimed_job_still_active` returns.
unfoldable pub active_row : ℕ → Option ℕ → Db → Option ProcessingJob
active_row job_id celery_task_id db =
    find_where (λ j. j.id == job_id && (is_running j.status && owned_by celery_task_id j)) db.jobs

unfoldable pub claimed_job_still_active : ℕ → Option ℕ → Db → Bool
unfolding active_row
claimed_job_still_active job_id celery_task_id db = is_some (active_row job_id celery_task_id db)

-- int((job.result_metadata or {}).get("attempt", 0)) + 1; only this function writes the entry.
abbrev number_of : Option Json → ℕ
number_of (some (Json.num n)) = n
number_of _ = 0

unfoldable pub attempt_of : Option Fields → ℕ
unfolding get_field
attempt_of meta = number_of (get_field "attempt" (dict_of meta)) + 1

-- `if isinstance(error_details, dict)`
abbrev with_details : String → Option Fields → Fields → Fields
with_details key none meta = meta
with_details key (some d) meta = set_field key (Json.obj d) meta

abbrev merge_details : Option Fields → Fields → Fields
merge_details none extra = extra
merge_details (some d) extra = update_fields extra d

unfoldable pub retry_metadata : ProcessingFailure → ProcessingJob → Fields
unfolding attempt_of set_field
retry_metadata exc job = with_details "last_error_details" (failure_details exc) (
    set_field "last_error_code" (Json.str (code_value (failure_code exc))) (
      set_field "last_error" (Json.str (take 2000 (failure_text exc))) (
        set_field "attempt" (Json.num (attempt_of job.result_metadata))
          (dict_of job.result_metadata))))

-- The entries of the audit after "error_message".
failure_extra : ProcessingJob → ProcessingFailure → Fields → Fields
failure_extra job exc rest = Fields.field "video_id" (Json.num job.video_id) (
    Fields.field "stage" (Json.str (stage_value job.stage)) (
      Fields.field "error_code" (Json.str (code_value (failure_code exc)))
        (Fields.field "error_message" (Json.str (take 2000 (failure_text exc))) rest)))

failed_result : ProcessingJob → ProcessingFailure → Bool → StageResult
failed_result job exc retryable = record {
  job_id = job.id;
  status = StageStatus.failed;
  retryable = retryable;
  error_code = some (failure_code exc);
}

-- The transient branch, and the permanent one.
release_after : ProcessingFailure → ProcessingJob → Db → StageResult × Db
unfolding failed_result failure_extra retry_metadata release_job_for_retry set_video_status
    write_audit uploader_of update_fields
release_after exc job db =
    let released = (release_job_for_retry job.id (some (retry_metadata exc job)) db).1 in
    let queued =
      (set_video_status job.video_id VideoStatus.queued
        (VideoStatus.processing ∷ VideoStatus.queued ∷ []) released).1 in
    (
      failed_result job exc true,
      write_audit
          (job_audit AuditAction.video_processing_failed job (
            merge_details (failure_details exc) (
              failure_extra job exc (
                Fields.field "retryable" (Json.flag true) (
                  Fields.field "attempt" (Json.num (attempt_of job.result_metadata))
                    (origin_fields (uploader_of job.video_id db) Fields.end))))))
          queued,
    )

fail_after : ProcessingFailure → ProcessingJob → Db → StageResult × Db
unfolding failed_result failure_extra fail_job set_video_status write_audit uploader_of
    update_fields
fail_after exc job db =
    let failed = (fail_job job.id (failure_code exc) (take 2000 (failure_text exc)) none db).1 in
    let closed =
      (set_video_status job.video_id VideoStatus.failed
        (VideoStatus.processing ∷ VideoStatus.queued ∷ []) failed).1 in
    (
      failed_result job exc false,
      write_audit
          (job_audit AuditAction.video_processing_failed job (
            merge_details (failure_details exc)
              (failure_extra job exc (origin_fields (uploader_of job.video_id db) Fields.end))))
          closed,
    )

-- The unlocked test of ownership and the guarded UPDATE that follows it are one step here.
unfoldable pub handle_task_failure : ℕ → ProcessingFailure → Option ℕ → Db → StageResult × Db
unfolding release_after fail_after active_row
handle_task_failure job_id exc celery_task_id db = elim (active_row job_id celery_task_id db) [
  | none ↦ (skipped_result job_id (some ErrorCode.processing_cancelled), db)
  | some job ↦ if is_retryable exc then release_after exc job db else fail_after exc job db
]
