-- ===== src/Worker/Transcode/Safety.antt =====
-- transcode.py: what a whole run of the stage keeps, and what it reports.
use nextballup.Prelude.{
  ℕ, ◌≡◌, refl, ap, false, Option, none, some, update_where_none, inl, inr, Option-cases,
}
use nextballup.Core.Errors.{ErrorCode}
use nextballup.Core.Json.{Fields}
use nextballup.Db.{Db, Video, ProcessingJob}
use nextballup.Worker.Jobs.{complete_job, update_jobs}
use nextballup.Worker.CvStages.{WorkerSettings, skipped_result}
use nextballup.Worker.Failure.{active_row, claimed_job_still_active}
use nextballup.Worker.Transcode.{BrowserMezzanineArtifact, materialize_outputs}
use nextballup.Worker.Transcode.Finish.{finish_transcode, completed_transcode, transcode_metadata}

complete_job_lost :
    (job_id : ℕ) (meta : Option Fields) (task : Option ℕ) (db : Db)
    → claimed_job_still_active job_id task db ≡ false
    → complete_job job_id meta task db ≡ (none, db)
unfolding complete_job update_jobs claimed_job_still_active active_row
complete_job_lost job_id meta task db lost = elim (Option-cases (active_row job_id task db)) [
  | inl n ↦ rw (n, update_where_none _ _ db.jobs n) refl
  | inr (j, e) ↦ absurd (cc (rw e at lost))
]

-- A run that has lost its job by its last transaction, to a cancellation, a recovery or another task,
-- writes nothing there: no row of a job or a video changes, no audit and no next job is added.
pub finish_transcode_lost :
    (settings : WorkerSettings) (claimed : ProcessingJob) (task origin : Option ℕ)
    (verification outputs : Fields) (artifact : BrowserMezzanineArtifact) (new_id : ℕ) (db : Db)
    → claimed_job_still_active claimed.id task db ≡ false
    → finish_transcode settings claimed task origin verification outputs artifact new_id db
      ≡ (skipped_result claimed.id (some ErrorCode.processing_cancelled), db)
unfolding finish_transcode completed_transcode
finish_transcode_lost settings claimed task origin verification outputs artifact new_id db lost =
    ap (completed_transcode settings claimed origin verification artifact new_id) (
      complete_job_lost claimed.id (some (transcode_metadata verification outputs artifact)) task db
        lost)

-- The same holds where the outputs are written: without the job no output is recorded.
pub materialize_outputs_lost :
    (video : Video) (artifact : BrowserMezzanineArtifact) (settings : WorkerSettings) (job_id : ℕ)
    (task : Option ℕ) (db : Db)
    → claimed_job_still_active job_id task db ≡ false
    → materialize_outputs video artifact settings job_id task db ≡ (none, db)
unfolding materialize_outputs
materialize_outputs_lost video artifact settings job_id task db lost = rw lost refl
