-- ===== src/Worker/CvStages/Rows.antt =====
-- cv_pipeline.py: the row that `queue_next_stage_if_enabled` adds, and the rows that were there.
use nextballup.Prelude.{
  ℕ, ◌≡◌, Option, none, some, List, [], ◌∷◌, ◌++◌, arith, ◌==◌, ◌&&◌, inl, inr, Bool-cases,
  any_where, find_where, find_where-append, All, All-append,
}
use nextballup.Core.Enums.{ProcessingJobStage, stage_eq}
use nextballup.Db.{Db, Video, ProcessingJob, write_audit}
use nextballup.Worker.Jobs.{get_job}
use nextballup.Worker.Jobs.Invariant.{JobOk, JobsOk}
use nextballup.Worker.CvStages.{
  WorkerSettings, next_stage, queue_stage, queue_next_stage_if_enabled, add_job, pending_job,
}

pub pending_job-JobOk :
    (id video_id team_id : ℕ) (stage : ProcessingJobStage) (now : ℕ)
    → JobOk (pending_job id video_id team_id stage now)
unfolding pending_job
pending_job-JobOk id video_id team_id stage now = ground arith

queue_stage-jobs :
    (video : Video) (completed_stage : ProcessingJobStage) (next : Option ProcessingJobStage)
    (new_id : ℕ) (db : Db)
    → (P : List ProcessingJob → Type 0) → P db.jobs
    → ((s : ProcessingJobStage)
        → P (db.jobs ++ (pending_job new_id video.id video.team_id s db.now ∷ [])))
    → P (queue_stage video completed_stage next new_id db).1.jobs
unfolding queue_stage add_job write_audit
queue_stage-jobs video completed_stage none new_id db P same more = same
queue_stage-jobs video completed_stage (some next) new_id db P same more =
    elim (Bool-cases (any_where (λ j. j.video_id == video.id && stage_eq j.stage next) db.jobs)) [
      | inl t ↦ rw t same
      | inr f ↦ rw f (more next)
    ]

-- The rows are those before, or those with one pending job at the end.
pub queue_next-jobs :
    (video : Video) (completed_stage : ProcessingJobStage) (settings : WorkerSettings) (new_id : ℕ)
    (db : Db)
    → (P : List ProcessingJob → Type 0) → P db.jobs
    → ((s : ProcessingJobStage)
        → P (db.jobs ++ (pending_job new_id video.id video.team_id s db.now ∷ [])))
    → P (queue_next_stage_if_enabled video completed_stage settings new_id db).1.jobs
unfolding queue_next_stage_if_enabled
queue_next-jobs video completed_stage settings new_id db P same more =
    elim (Bool-cases settings.cv_pipeline_enabled) [
      | inl t ↦ rw t (
          queue_stage-jobs video completed_stage (next_stage completed_stage) new_id db P same more)
      | inr f ↦ rw f same
    ]

pub queue_next_stage_if_enabled-JobsOk :
    (video : Video) (completed_stage : ProcessingJobStage) (settings : WorkerSettings) (new_id : ℕ)
    (db : Db)
    → JobsOk db
    → JobsOk (queue_next_stage_if_enabled video completed_stage settings new_id db).1
queue_next_stage_if_enabled-JobsOk video completed_stage settings new_id db h =
    queue_next-jobs video completed_stage settings new_id db (All JobOk) h (λ s.
      All-append JobOk db.jobs _ h ((pending_job-JobOk new_id video.id video.team_id s db.now), tt))

-- A row that is there stays as it is.
pub get_job-queue_next :
    (video : Video) (completed_stage : ProcessingJobStage) (settings : WorkerSettings) (new_id : ℕ)
    (db : Db) (k : ℕ) {j : ProcessingJob}
    → get_job k db ≡ some j
    → get_job k (queue_next_stage_if_enabled video completed_stage settings new_id db).1 ≡ some j
unfolding get_job
get_job-queue_next video completed_stage settings new_id db k {j} e =
    queue_next-jobs video completed_stage settings new_id db
      (λ js. find_where (λ i. i.id == k) js ≡ some j) e (λ s. find_where-append _ db.jobs _ e)
