-- ===== src/Worker/Jobs/Invariant.antt =====
-- What every row of `processing_jobs` satisfies between two commits, kept by each transition.
use nextballup.Prelude.{
  ℕ, ◌≤◌, ◌≡◌, true, Option, none, some, ◌++◌, arith, is_some, or_else, length, length-take, All,
  All-update_where,
}
use nextballup.Core.Text.{Text, codes}
use nextballup.Core.Enums.{ProcessingJobStatus}
use nextballup.Core.Errors.{ErrorCode, code_value}
use nextballup.Core.Json.{Fields}
use nextballup.Db.{Db, ProcessingJob}
use nextballup.Worker.Jobs.{
  claim_job, touch_heartbeat, complete_job, failure_message, fail_job, release_job_for_retry,
}

abbrev pub message_length : Option Text → ℕ
message_length none = 0
message_length (some t) = length t

-- A running job has a heartbeat and a start; a pending job has no progress; a completed job is at
-- 100 with no error; a failed job says when and why.
pub record JobOk (j : ProcessingJob) : Type 0 where
  pub progress_bound : j.progress_percent ≤ 100
  pub pending_fresh : j.status ≡ ProcessingJobStatus.pending → j.progress_percent ≡ 0
  pub running_beats : j.status ≡ ProcessingJobStatus.running → is_some j.heartbeat_at ≡ true
  pub running_started : j.status ≡ ProcessingJobStatus.running → is_some j.started_at ≡ true
  pub completed_full : j.status ≡ ProcessingJobStatus.completed → j.progress_percent ≡ 100
  pub completed_clean : j.status ≡ ProcessingJobStatus.completed → j.error_message ≡ none
  pub completed_dated : j.status ≡ ProcessingJobStatus.completed → is_some j.completed_at ≡ true
  pub failed_dated : j.status ≡ ProcessingJobStatus.failed → is_some j.completed_at ≡ true
  pub failed_explained : j.status ≡ ProcessingJobStatus.failed → is_some j.error_message ≡ true
  pub message_bound : message_length j.error_message ≤ 2000

abbrev pub JobsOk : Db → Type 0
JobsOk db = All JobOk db.jobs

pub failure_message_bound :
    (error_code : ErrorCode) (error_message : Text)
    → length (failure_message error_code error_message) ≤ 2000
unfolding failure_message
failure_message_bound error_code error_message =
    length-take 2000 (codes "[" ++ (code_value error_code ++ (codes "] " ++ error_message)))

pub claim_job-JobsOk :
    (job_id : ℕ) (task : Option ℕ) (db : Db) → JobsOk db → JobsOk (claim_job job_id task db).1
unfolding claim_job
claim_job-JobsOk job_id task db h = All-update_where JobOk _ _ (λ j taken v. ground arith) db.jobs h

pub touch_heartbeat-JobsOk :
    (job_id : ℕ) (progress task : Option ℕ) (db : Db)
    → or_else progress 0 ≤ 100
    → JobsOk db
    → JobsOk (touch_heartbeat job_id progress task db)
unfolding touch_heartbeat
touch_heartbeat-JobsOk job_id progress task db small h =
    All-update_where JobOk _ _ (λ j taken v. ground arith) db.jobs h

pub complete_job-JobsOk :
    (job_id : ℕ) (meta : Option Fields) (task : Option ℕ) (db : Db)
    → JobsOk db
    → JobsOk (complete_job job_id meta task db).1
unfolding complete_job
complete_job-JobsOk job_id meta task db h =
    All-update_where JobOk _ _ (λ j taken v. ground arith) db.jobs h

pub fail_job-JobsOk :
    (job_id : ℕ) (error_code : ErrorCode) (error_message : Text) (meta : Option Fields) (db : Db)
    → JobsOk db
    → JobsOk (fail_job job_id error_code error_message meta db).1
unfolding fail_job
fail_job-JobsOk job_id error_code error_message meta db h =
    All-update_where JobOk _ _
      (λ j taken v. ground (arith, failure_message_bound error_code error_message)) db.jobs h

pub release_job_for_retry-JobsOk :
    (job_id : ℕ) (meta : Option Fields) (db : Db)
    → JobsOk db
    → JobsOk (release_job_for_retry job_id meta db).1
unfolding release_job_for_retry
release_job_for_retry-JobsOk job_id meta db h =
    All-update_where JobOk _ _ (λ j taken v. ground arith) db.jobs h
