-- ===== src/Api/Requeue/Delivered.antt =====
-- videos.py and dispatch.py together: a job that a coach has requeued reaches the broker.
use nextballup.Prelude.{
  ℕ, ◌+◌, ◌≤◌, ◌≡◌, refl, Bool, true, not, ◌&&◌, Option, some, List, arith, ◌==◌, ==_refl,
  any_where, any_where-find_where, find_where-any_where, any_where-update_where, length,
  length-update_where, All, find_where-All, leb, le→leb, is_some,
}
use nextballup.Core.Text.{Text}
use nextballup.Core.Enums.{ProcessingJobStage, is_failed}
use nextballup.Core.Errors.{ErrorClass, ErrorCode}
use nextballup.Db.{Db, User, Video, ProcessingJob, write_audit}
use nextballup.Worker.Jobs.Row.{stage_job}
use nextballup.Worker.Dispatch.{awaits_dispatch, grace, dispatch_pending_jobs}
use nextballup.Worker.Dispatch.Delivered.{dispatch_pending_jobs_due}
use nextballup.Api.Result.{Result, ok, bind_ok, raise_if, raise_if-not, ◌>>=◌, ◌>>◌}
use nextballup.Api.Permissions.{require_team_coach}
use nextballup.Api.Videos.{
  or_raise, or_raise-eq-ok, video_or_404, job_of_stage, requested_stage, save_video,
}
use nextballup.Api.Uploads.{ObjectStore}
use nextballup.Api.Requeue.{
  requeued_values, requeue_job, requeueable, retryable_job, requeue_of_video, requeue_processing,
  assert_raw_object_requeueable,
}

-- What a requeue that succeeds did: the job is one of the rows, and its row was reset.
pub record Requeued (user : User) (db : Db) (k : ℕ) (after : Db) : Type 0 where
  pub video : Video
  pub job : ProcessingJob
  pub stage : ProcessingJobStage
  pub found : stage_job video.id stage db.jobs ≡ some job
  pub failed : is_failed job.status ≡ true
  pub listed : any_where (λ j. j.id == k) db.jobs ≡ true
  pub keyed : job.id ≡ k
  pub saved : requeue_job user video job db ≡ after

module _ (storage : Option ObjectStore) (video : Video) (job : ProcessingJob) where
  -- The checks give back the job that they look at.
  retryable_job-same :
      {j : ProcessingJob}
      → retryable_job storage video job ≡ ok j
      → (j ≡ job) × (is_failed job.status ≡ true)
  unfolding retryable_job
  retryable_job-same e =
      let store =
        bind_ok
          (raise_if (not (is_failed job.status)) ErrorClass.conflict_error
              ErrorCode.processing_job_not_requeuable
            >> or_raise storage ErrorClass.service_unavailable_error
                ErrorCode.storage_not_configured)
          (λ store. assert_raw_object_requeueable store video >>= λ _. ok job) e in
      let open_store =
        bind_ok
          (raise_if (not (is_failed job.status)) ErrorClass.conflict_error
            ErrorCode.processing_job_not_requeuable)
          (λ _.
            or_raise storage ErrorClass.service_unavailable_error ErrorCode.storage_not_configured)
          store.1.0 in
      (
        cc ((bind_ok (assert_raw_object_requeueable store.0 video) (λ _. ok job) store.1.1).1.1),
        raise_if-not _ _ _ open_store.1.0,
      )

module _ (storage : Option ObjectStore) (user : User) (stage : ProcessingJobStage) (db : Db)
    (video : Video) where
  requeue_of_video-Requeued :
      {k : ℕ} {after : Db}
      → requeue_of_video storage user stage db video ≡ ok (k, after)
      → Requeued user db k after
  unfolding requeue_of_video job_of_stage stage_job
  requeue_of_video-Requeued {k} {after} e =
      let finish : ProcessingJob → Result (ℕ × Db) =
        λ job. ok (job.id, requeue_job user video job db) in
      let coach =
        bind_ok (require_team_coach user video.team_id db)
          (λ _. requeueable video stage >>= λ _.
            job_of_stage video stage db >>= retryable_job storage video >>= finish)
          e in
      let checks =
        bind_ok (requeueable video stage)
          (λ _. job_of_stage video stage db >>= retryable_job storage video >>= finish) coach.1.1 in
      let last =
        bind_ok (job_of_stage video stage db >>= retryable_job storage video) finish checks.1.1 in
      let found = bind_ok (job_of_stage video stage db) (retryable_job storage video) last.1.0 in
      let same : last.0 ≡ found.0 = (retryable_job-same storage video found.0 found.1.1).0 in
      let row = or_raise-eq-ok _ _ _ found.1.0 in
      let key : last.0.id ≡ k = cc (last.1.1) in
      record {
        video = video;
        job = found.0;
        stage = stage;
        found = row;
        failed = (retryable_job-same storage video found.0 found.1.1).1;
        listed =
            any_where-find_where _ (λ j. j.id == k) db.jobs row
              (rw (← key, same) (==_refl found.0.id));
        keyed = rw (← same) key;
        saved = rw (← same) (cc (last.1.1));
      }

pub requeue_processing-Requeued :
    (verified_only : Bool) (user : User) (video_id : ℕ) (stage_text : Text)
    (storage : Option ObjectStore) (db : Db) {k : ℕ} {after : Db}
    → requeue_processing verified_only user video_id stage_text storage db ≡ ok (k, after)
    → Requeued user db k after
unfolding requeue_processing
requeue_processing-Requeued verified_only user video_id stage_text storage db e =
    let s =
      bind_ok (requested_stage verified_only user stage_text)
        (λ stage. video_or_404 video_id db >>= requeue_of_video storage user stage db) e in
    let v = bind_ok (video_or_404 video_id db) (requeue_of_video storage user s.0 db) s.1.1 in
    requeue_of_video-Requeued storage user s.0 db v.0 v.1.1

-- Every row as old as the grace period asks, at a time.
abbrev Due : ℕ → ℕ → List ProcessingJob → Type 0
Due interval now jobs = All (λ j. j.created_at + grace interval ≤ now) jobs

requeue_job-Due :
    (user : User) (video : Video) (job : ProcessingJob) (k interval later : ℕ) (db : Db)
    → job.id ≡ k
    → any_where (λ j. j.id == k) db.jobs ≡ true
    → Due interval later db.jobs
    → any_where
        (λ j. j.id == k && (awaits_dispatch j && leb (j.created_at + grace interval) later))
        (requeue_job user video job db).jobs
      ≡ true
unfolding requeue_job save_video write_audit requeued_values awaits_dispatch
requeue_job-Due user video job k interval later db key listed due =
    let row = find_where-any_where (λ j. j.id == k) db.jobs listed in
    let facts =
      find_where-All (λ j. j.created_at + grace interval ≤ later) (λ j. j.id == k) db.jobs due
        row.1 in
    rw key (
      any_where-update_where (λ j. j.id == k && leb (j.created_at + grace interval) later)
        (λ j. j.id == k && (awaits_dispatch j && leb (j.created_at + grace interval) later))
        (λ j. j.id == k) requeued_values (λ j t. ground arith) db.jobs
        (any_where-find_where (λ j. j.id == k) _ db.jobs row.1
          (rw (facts.0, le→leb _ _ facts.1) refl)))

requeue_job-fits :
    (user : User) (video : Video) (job : ProcessingJob) (limit : ℕ) (db : Db)
    → length db.jobs ≤ limit
    → length (requeue_job user video job db).jobs ≤ limit
unfolding requeue_job save_video write_audit
requeue_job-fits user video job limit db fits =
    omega (arith, fits, length-update_where (λ j. j.id == job.id) requeued_values db.jobs)

-- A requeue that succeeds is followed up: once the jobs are as old as the grace period asks, the next
-- dispatch pass that has room for them, with a broker that takes every job and no other session at
-- work, hands the requeued job out.
pub requeue_processing_delivered :
    (verified_only : Bool) (user : User) (video_id : ℕ) (stage_text : Text)
    (storage : Option ObjectStore) (interval limit later : ℕ)
    (enqueue : ℕ → ProcessingJobStage → Option ℕ) (db : Db) {k : ℕ} {after : Db}
    → requeue_processing verified_only user video_id stage_text storage db ≡ ok (k, after)
    → ((n : ℕ) (stage : ProcessingJobStage) → is_some (enqueue n stage) ≡ true)
    → length db.jobs ≤ limit
    → Due interval later db.jobs
    → any_where
        (λ n. n == k)
        (dispatch_pending_jobs enqueue (λ _ d. d) interval limit (record after { now = later })).0
      ≡ true
requeue_processing_delivered verified_only user video_id stage_text storage interval limit later
      enqueue db {k} e takes fits due =
    let done = requeue_processing-Requeued verified_only user video_id stage_text storage db e in
    rw (← done.saved) (
      dispatch_pending_jobs_due k interval limit enqueue
        (record (requeue_job user done.video done.job db) { now = later }) takes
        (requeue_job-fits user done.video done.job limit db fits)
        (requeue_job-Due user done.video done.job k interval later db done.keyed done.listed due))
