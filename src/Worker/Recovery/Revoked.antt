-- ===== src/Worker/Recovery/Revoked.antt =====
-- cleanup.py and tasks.py: a job that is failed from outside is lost to the run that holds it.
use nextballup.Prelude.{
  ℕ, ◌+◌, ◌≤◌, ◌≡◌, refl, Bool, true, false, not, ◌&&◌, Option, none, some, List, [], ◌∷◌, arith,
  ◌==◌, ltb, inl, inr, Option-cases, All, All-map, ==→eq, find_where_self, find_where_none,
  find_where-update_where_none, filter_where,
}
use nextballup.Core.Text.{Text, codes}
use nextballup.Core.Enums.{ProcessingJobStatus, is_running, is_open}
use nextballup.Core.Errors.{ErrorCode}
use nextballup.Core.Json.{Fields}
use nextballup.Db.{Db, ProcessingJob, write_audit}
use nextballup.Worker.Jobs.{
  owned_by, fail_job, failed_values, update_jobs, update_videos, set_video_status, get_job,
}
use nextballup.Worker.Jobs.Invariant.{JobOk, JobsOk, fail_job-JobsOk}
use nextballup.Worker.Failure.{active_row, claimed_job_still_active}
use nextballup.Worker.Recovery.{
  stale_limit, is_stale, stale_metadata, recover_job, recover_jobs, recover_stale_jobs,
  fail_video_of, terminal_failure,
}

-- When the rows are well-formed, a running job that is not stale has sent a heartbeat within the
-- limit, so that no running job escapes the recovery for want of a heartbeat.
pub is_stale_complete :
    (seconds : ℕ) (db : Db)
    → JobsOk db
    → All
        (λ j.
          j.status ≡ ProcessingJobStatus.running
          → is_stale seconds db.now j ≡ false
          → (beat : ℕ) × ((j.heartbeat_at ≡ some beat) × (db.now ≤ beat + seconds)))
        db.jobs
unfolding is_stale
is_stale_complete seconds db h =
    All-map JobOk _
      (λ j ok r fresh. elim (Option-cases j.heartbeat_at) [
        | inl n ↦ absurd (cc (rw n at ok.running_beats r))
        | inr (beat, e) ↦
            let late : ltb (beat + seconds) db.now ≡ false = rw (r, e) at fresh in
            (beat, (e, ground arith))
      ])
      db.jobs h

fail_job_revokes :
    (job_id : ℕ) (code : ErrorCode) (message : Text) (meta : Option Fields) (task : Option ℕ)
    (db : Db)
    → claimed_job_still_active job_id task (fail_job job_id code message meta db).1 ≡ false
unfolding claimed_job_still_active active_row fail_job update_jobs
fail_job_revokes job_id code message meta task db =
    rw
      (find_where_none (λ j. j.id == job_id && is_open j.status)
        (λ j. j.id == job_id && (is_running j.status && owned_by task j)) (λ j t. ground arith) _
        (find_where-update_where_none (λ j. j.id == job_id && is_open j.status)
          (failed_values code message meta db.now) (λ j t. ground arith) db.jobs))
      refl

-- After the recovery of a job, no run holds it any more: whatever its Celery task, the ownership
-- test of a run that is still at work fails.
pub recover_job_revokes :
    (job : ProcessingJob) (task : Option ℕ) (db : Db)
    → claimed_job_still_active job.id task (recover_job job db) ≡ false
unfolding recover_job set_video_status update_videos write_audit claimed_job_still_active active_row
recover_job_revokes job task db =
    fail_job_revokes job.id ErrorCode.processing_stale_recovered (codes "heartbeat stale")
      (stale_metadata job) task db

recover_job-JobsOk : (job : ProcessingJob) (db : Db) → JobsOk db → JobsOk (recover_job job db)
unfolding recover_job set_video_status update_videos write_audit
recover_job-JobsOk job db h =
    fail_job-JobsOk job.id ErrorCode.processing_stale_recovered (codes "heartbeat stale")
      (stale_metadata job) db h

recover_jobs-JobsOk :
    (elsewhere : ℕ → Db → Db)
    → ((n : ℕ) (d : Db) → JobsOk d → JobsOk (elsewhere n d))
    → (jobs : List ProcessingJob) (db : Db) → JobsOk db
    → JobsOk (recover_jobs elsewhere jobs db).1
unfolding recover_jobs
recover_jobs-JobsOk elsewhere others [] db h = h
recover_jobs-JobsOk elsewhere others (job ∷ jobs) db h =
    recover_jobs-JobsOk elsewhere others jobs _
      (others job.id (recover_job job db) (recover_job-JobsOk job db h))

pub fail_video_of-jobs :
    (fail_video : Bool) (job : ProcessingJob) (failed : Option ProcessingJob × Db)
    → (fail_video_of fail_video job failed).jobs ≡ failed.1.jobs
unfolding fail_video_of set_video_status update_videos
fail_video_of-jobs fail_video job (none, db) = refl
fail_video_of-jobs true job (some j, db) = refl
fail_video_of-jobs false job (some j, db) = refl

-- A recovery pass keeps the rows of the jobs well-formed, whatever other sessions commit between its
-- rows, as long as they keep them well-formed.
pub recover_stale_jobs-JobsOk :
    (locked : ℕ → Bool) (elsewhere : ℕ → Db → Db) (seconds : ℕ) (db : Db)
    → ((n : ℕ) (d : Db) → JobsOk d → JobsOk (elsewhere n d))
    → JobsOk db
    → JobsOk (recover_stale_jobs locked elsewhere seconds db).1
unfolding recover_stale_jobs
recover_stale_jobs-JobsOk locked elsewhere seconds db others h =
    recover_jobs-JobsOk elsewhere others
      (filter_where (λ j. is_stale (stale_limit seconds) db.now j && not (locked j.id)) db.jobs) db
      h

fail_video_of-JobsOk :
    (fail_video : Bool) (job : ProcessingJob) (failed : Option ProcessingJob × Db)
    → JobsOk failed.1
    → JobsOk (fail_video_of fail_video job failed)
fail_video_of-JobsOk fail_video job failed h = rw (fail_video_of-jobs fail_video job failed) h

fail_video_of-active :
    (fail_video : Bool) (job : ProcessingJob) (failed : Option ProcessingJob × Db) (task : Option ℕ)
    → claimed_job_still_active job.id task failed.1 ≡ false
    → claimed_job_still_active job.id task (fail_video_of fail_video job failed) ≡ false
unfolding claimed_job_still_active active_row
fail_video_of-active fail_video job failed task h = rw (fail_video_of-jobs fail_video job failed) h

no_job-active :
    (job_id : ℕ) (task : Option ℕ) (db : Db)
    → get_job job_id db ≡ none
    → claimed_job_still_active job_id task db ≡ false
unfolding claimed_job_still_active active_row get_job
no_job-active job_id task db n =
    rw
      (find_where_none (λ j. j.id == job_id)
        (λ j. j.id == job_id && (is_running j.status && owned_by task j)) (λ j t. ground arith)
        db.jobs n)
      refl

-- The end of a task whose retries are used up keeps the rows of the jobs well-formed.
pub terminal_failure-JobsOk :
    (job_id : ℕ) (code : ErrorCode) (message : Text) (fail_video : Bool) (db : Db)
    → JobsOk db
    → JobsOk (terminal_failure job_id code message fail_video db)
unfolding terminal_failure write_audit
terminal_failure-JobsOk job_id code message fail_video db h =
    elim (Option-cases (get_job job_id db)) [
      | inl n ↦ rw (n, terminal_failure) h
      | inr (job, e) ↦
          rw (e, terminal_failure)
            (fail_video_of-JobsOk fail_video job (fail_job job.id code message none db)
              (fail_job-JobsOk job.id code message none db h))
    ]

-- After the end of a task whose retries are used up no run holds the job, whatever its Celery task.
pub terminal_failure_revokes :
    (job_id : ℕ) (code : ErrorCode) (message : Text) (fail_video : Bool) (task : Option ℕ) (db : Db)
    → claimed_job_still_active job_id task (terminal_failure job_id code message fail_video db)
      ≡ false
unfolding terminal_failure write_audit claimed_job_still_active active_row get_job
terminal_failure_revokes job_id code message fail_video task db =
    elim (Option-cases (get_job job_id db)) [
      | inl n ↦ rw (n, terminal_failure) (no_job-active job_id task db n)
      | inr (job, e) ↦
          let same = ==→eq job.id job_id (find_where_self (λ j. j.id == job_id) db.jobs e) in
          rw (e, terminal_failure)
            (rw (← same) (
              fail_video_of-active fail_video job (fail_job job.id code message none db) task
                (fail_job_revokes job.id code message none task db)))
    ]
