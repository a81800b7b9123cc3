-- ===== src/Api/Cancel/Revoked.antt =====
-- videos.py: a cancellation is allowed to a coach only, and takes the job away from its run.
use nextballup.Prelude.{
  ℕ, ◌≡◌, refl, Bool, true, false, ◌&&◌, inl, inr, Option, none, some, List, [], ◌∷◌, arith, ◌==◌,
  Bool-cases, find_where, update_where,
}
use nextballup.Core.Text.{Text}
use nextballup.Core.Enums.{is_running, ProcessingJobStage}
use nextballup.Db.{Db, User, Video, ProcessingJob, write_audit}
use nextballup.Worker.Jobs.{owned_by}
use nextballup.Worker.Jobs.Row.{stage_job}
use nextballup.Worker.Failure.{active_row, claimed_job_still_active}
use nextballup.Api.Result.{bind_ok, ok, ◌>>=◌}
use nextballup.Api.Permissions.{require_team_coach}
use nextballup.Api.Videos.{or_raise-eq-ok, job_of_stage, requested_stage, video_or_404}
use nextballup.Api.Cancel.{
  cancelled_values, cancel_job, cancel_running, cancellable, cancel_of_video, cancel_processing,
}

find_where-update_where_out :
    (p q : ProcessingJob → Bool) (f : ProcessingJob → ProcessingJob)
    → ((x : ProcessingJob) → p x ≡ true → q (f x) ≡ false)
    → ((x : ProcessingJob) → p x ≡ false → q x ≡ false)
    → (js : List ProcessingJob) → find_where q (update_where p f js) ≡ none
unfolding find_where update_where
find_where-update_where_out p q f moved others [] = refl
find_where-update_where_out p q f moved others (x ∷ js) = elim (Bool-cases (p x)) [
  | inl t ↦ rw (t, moved x t) (find_where-update_where_out p q f moved others js)
  | inr n ↦ rw (n, others x n) (find_where-update_where_out p q f moved others js)
]

cancel_job_revokes :
    (user : User) (video : Video) (job : ProcessingJob) (task : Option ℕ) (db : Db)
    → claimed_job_still_active job.id task (cancel_job user video job db) ≡ false
unfolding claimed_job_still_active active_row cancel_job write_audit cancelled_values
cancel_job_revokes user video job task db =
    rw
      (find_where-update_where_out (λ j. j.id == job.id)
        (λ j. j.id == job.id && (is_running j.status && owned_by task j))
        (cancelled_values user db.now) (λ j t. ground arith) (λ j n. rw n refl) db.jobs)
      refl

-- What a cancellation that succeeds did: the running job of the stage was closed.
pub record Cancelled (user : User) (db : Db) (k : ℕ) (after : Db) : Type 0 where
  pub video : Video
  pub job : ProcessingJob
  pub stage : ProcessingJobStage
  pub found : stage_job video.id stage db.jobs ≡ some job
  pub running : is_running job.status ≡ true
  pub keyed : job.id ≡ k
  pub saved : cancel_job user video job db ≡ after

cancel_running-saved :
    (user : User) (video : Video) (db : Db) (job : ProcessingJob) {k : ℕ} {after : Db}
    → cancel_running user video db job ≡ ok (k, after)
    → (is_running job.status ≡ true) × ((job.id ≡ k) × (cancel_job user video job db ≡ after))
unfolding cancel_running
cancel_running-saved user video db job {k} {after} e = elim (Bool-cases (is_running job.status)) [
  | inr f ↦ absurd (cc (rw (f, cancel_running) at e))
  | inl t ↦
      let same : ok (job.id, cancel_job user video job db) ≡ ok (k, after) =
        rw (t, cancel_running) at e in
      (t, (cc same, cc same))
]

pub cancel_processing-Cancelled :
    (verified_only : Bool) (user : User) (video_id : ℕ) (stage_text : Text) (db : Db) {k : ℕ}
    {after : Db}
    → cancel_processing verified_only user video_id stage_text db ≡ ok (k, after)
    → Cancelled user db k after
unfolding cancel_processing cancel_of_video job_of_stage stage_job
cancel_processing-Cancelled verified_only user video_id stage_text db {k} {after} e =
    let s =
      bind_ok (requested_stage verified_only user stage_text)
        (λ stage. video_or_404 video_id db >>= cancel_of_video user stage db) e in
    let v = bind_ok (video_or_404 video_id db) (cancel_of_video user s.0 db) s.1.1 in
    let video = v.0 in
    let coach =
      bind_ok (require_team_coach user video.team_id db)
        (λ _.
          cancellable video s.0 >>= λ _. job_of_stage video s.0 db >>= cancel_running user video db)
        v.1.1 in
    let checks =
      bind_ok (cancellable video s.0)
        (λ _. job_of_stage video s.0 db >>= cancel_running user video db) coach.1.1 in
    let job = bind_ok (job_of_stage video s.0 db) (cancel_running user video db) checks.1.1 in
    let closed = cancel_running-saved user video db job.0 job.1.1 in
    record {
      video = video;
      job = job.0;
      stage = s.0;
      found = or_raise-eq-ok _ _ _ job.1.0;
      running = closed.0;
      keyed = closed.1.0;
      saved = closed.1.1;
    }

-- A cancellation that succeeds takes the job away from the run that holds it: whatever the Celery
-- task of that run, its ownership test fails in the committed state.
pub cancel_processing_revokes :
    (verified_only : Bool) (user : User) (video_id : ℕ) (stage_text : Text) (db : Db) {k : ℕ}
    {after : Db}
    → cancel_processing verified_only user video_id stage_text db ≡ ok (k, after)
    → (task : Option ℕ) → claimed_job_still_active k task after ≡ false
cancel_processing_revokes verified_only user video_id stage_text db e task =
    let closed = cancel_processing-Cancelled verified_only user video_id stage_text db e in
    rw (← closed.keyed, ← closed.saved) (cancel_job_revokes user closed.video closed.job task db)
