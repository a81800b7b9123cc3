-- ===== src/Worker/Failure/Outcome.antt =====
-- transcode.py: what a failure leaves of the job that the run holds, or of a job that it has lost.
use nextballup.Prelude.{
  ℕ, ◌≡◌, refl, true, false, ◌&&◌, Option, none, some, ◌==◌, find_where_self, ==→eq, arith,
  and_true, inl, inr, Option-cases, Bool-cases, take,
}
use nextballup.Core.Enums.{ProcessingJobStatus, is_running, is_open}
use nextballup.Core.Errors.{ErrorCode, code_value}
use nextballup.Core.Json.{Json, Fields, set_field}
use nextballup.Db.{Db, ProcessingJob, write_audit}
use nextballup.Worker.Errors.{ProcessingFailure, is_retryable, failure_code, failure_text}
use nextballup.Worker.Jobs.{
  owned_by, fail_job, release_job_for_retry, set_video_status, update_jobs, update_videos, get_job,
  failure_message,
}
use nextballup.Worker.Jobs.Row.{UniqueIds, find_where_guard, find_where-update_id}
use nextballup.Worker.Jobs.Invariant.{JobsOk, fail_job-JobsOk, release_job_for_retry-JobsOk}
use nextballup.Worker.CvStages.{skipped_result}
use nextballup.Worker.Failure.{
  active_row, claimed_job_still_active, retry_metadata, handle_task_failure, release_after,
  fail_after,
}

-- The row that the run holds is the row with the job's id, and it is running.
pub active_row_lem :
    (job_id : ℕ) (task : Option ℕ) (db : Db) {job : ProcessingJob}
    → UniqueIds db.jobs
    → active_row job_id task db ≡ some job
    → (get_job job_id db ≡ some job) × ((job.id ≡ job_id) × (is_running job.status ≡ true))
unfolding active_row get_job
active_row_lem job_id task db {job} u e =
    let row = find_where_guard job_id (λ j. is_running j.status && owned_by task j) db.jobs u e in
    (
      row.0,
      (
        ==→eq job.id job_id (find_where_self (λ j. j.id == job_id) db.jobs row.0),
        (and_true _ _ row.1).0,
      ),
    )

-- After a retryable failure of a job that the run holds, given that ids are unique, the row is
-- PENDING with no progress and no error, a fresh heartbeat and the metadata of the retry; the
-- Celery task id and every other column are as before.
pub handle_task_failure_retry :
    (job_id : ℕ) (exc : ProcessingFailure) (task : Option ℕ) (db : Db) {job : ProcessingJob}
    → UniqueIds db.jobs
    → active_row job_id task db ≡ some job
    → is_retryable exc ≡ true
    → get_job job_id (handle_task_failure job_id exc task db).1
      ≡ some (record job {
        status = ProcessingJobStatus.pending;
        progress_percent = 0;
        error_message = none;
        result_metadata = some (retry_metadata exc job);
        heartbeat_at = some db.now;
      })
unfolding handle_task_failure release_after release_job_for_retry set_video_status update_jobs
    update_videos write_audit get_job
handle_task_failure_retry job_id exc task db {job} u e r =
    let row = active_row_lem job_id task db u e in
    rw (e, r, handle_task_failure)
      (find_where-update_id job_id job.id (λ j. is_running j.status) _ db.jobs (λ i. refl) row.1.0
        row.0 row.1.1)

running-is_open : (s : ProcessingJobStatus) → is_running s ≡ true → is_open s ≡ true
running-is_open s h = ground arith

-- After a permanent failure of a job that the run holds, given that ids are unique, the row is
-- FAILED, dated and with the error's code and text as its message; every other column is as
-- before.
handle_task_failure_permanent :
    (job_id : ℕ) (exc : ProcessingFailure) (task : Option ℕ) (db : Db) {job : ProcessingJob}
    → UniqueIds db.jobs
    → active_row job_id task db ≡ some job
    → is_retryable exc ≡ false
    → get_job job_id (handle_task_failure job_id exc task db).1
      ≡ some (record job {
        status = ProcessingJobStatus.failed;
        completed_at = some db.now;
        error_message = some (failure_message (failure_code exc) (take 2000 (failure_text exc)));
        result_metadata =
            some (Fields.field "error_code" (Json.str (code_value (failure_code exc))) Fields.end);
      })
unfolding handle_task_failure fail_after fail_job set_video_status update_jobs update_videos
    write_audit get_job set_field
handle_task_failure_permanent job_id exc task db {job} u e r =
    let row = active_row_lem job_id task db u e in
    rw (e, r, handle_task_failure)
      (find_where-update_id job_id job.id (λ j. is_open j.status) _ db.jobs (λ i. refl) row.1.0
        row.0 (running-is_open _ row.1.1))

-- A failure of a run that has lost its job, to a cancellation, a recovery or another task, writes
-- nothing and is reported as a skip.
pub handle_task_failure_lost :
    (job_id : ℕ) (exc : ProcessingFailure) (task : Option ℕ) (db : Db)
    → claimed_job_still_active job_id task db ≡ false
    → handle_task_failure job_id exc task db
      ≡ (skipped_result job_id (some ErrorCode.processing_cancelled), db)
unfolding handle_task_failure claimed_job_still_active
handle_task_failure_lost job_id exc task db lost = elim (Option-cases (active_row job_id task db)) [
  | inl n ↦ rw (n, handle_task_failure) refl
  | inr (j, e) ↦ absurd (cc (rw e at lost))
]

-- A failure keeps the rows of the jobs well-formed on every branch.
pub handle_task_failure-JobsOk :
    (job_id : ℕ) (exc : ProcessingFailure) (task : Option ℕ) (db : Db)
    → JobsOk db
    → JobsOk (handle_task_failure job_id exc task db).1
unfolding handle_task_failure release_after fail_after set_video_status update_videos write_audit
handle_task_failure-JobsOk job_id exc task db h = elim (Option-cases (active_row job_id task db)) [
  | inl n ↦ rw (n, handle_task_failure) h
  | inr (j, e) ↦ elim (Bool-cases (is_retryable exc)) [
    | inl t ↦
        rw (e, t, handle_task_failure)
          (release_job_for_retry-JobsOk j.id (some (retry_metadata exc j)) db h)
    | inr f ↦
        rw (e, f, handle_task_failure)
          (fail_job-JobsOk j.id (failure_code exc) (take 2000 (failure_text exc)) none db h)
  ]
]
