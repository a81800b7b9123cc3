-- ===== src/Worker/CvStages/Order.antt =====
-- cv_pipeline.py: the order of the stages, and the job that follows a completed stage.
use nextballup.Prelude.{
  ℕ, ◌+◌, ◌≤◌, ◌≡◌, refl, true, false, List, [], ◌∷◌, ◌++◌, arith, ◌&&◌, ◌==◌, if◌then◌else◌, inl,
  inr, Bool-cases, any_where, Option-cases, ==→eq, and_true,
}
use nextballup.Core.Enums.{ProcessingJobStage, stage_eq}
use nextballup.Db.{Db, Video, ProcessingJob, write_audit}
use nextballup.Worker.CvStages.{
  next_stage, WorkerSettings, queue_next_stage_if_enabled, queue_stage, add_job, pending_job,
}

-- The rows of a stage of a video.
unfoldable pub count_stage : ℕ → ProcessingJobStage → List ProcessingJob → ℕ
count_stage video_id stage [] = 0
count_stage video_id stage (j ∷ js) =
    if j.video_id == video_id && stage_eq j.stage stage
    then 1 + count_stage video_id stage js
    else count_stage video_id stage js

-- The unique key (video_id, stage): at most one row for each.
unfoldable pub OneJobPerStage : List ProcessingJob → Type 0
OneJobPerStage js = (video_id : ℕ) (stage : ProcessingJobStage) → count_stage video_id stage js ≤ 1

count_stage-append :
    (video_id : ℕ) (stage : ProcessingJobStage) (js ks : List ProcessingJob)
    → count_stage video_id stage (js ++ ks)
      ≡ count_stage video_id stage js + count_stage video_id stage ks
unfolding count_stage
count_stage-append video_id stage [] ks = omega arith
count_stage-append video_id stage (j ∷ js) ks =
    ground (arith, count_stage-append video_id stage js ks)

count_stage_none :
    (video_id : ℕ) (stage : ProcessingJobStage) (js : List ProcessingJob)
    → any_where (λ j. j.video_id == video_id && stage_eq j.stage stage) js ≡ false
    → count_stage video_id stage js ≡ 0
unfolding count_stage any_where
count_stage_none video_id stage [] h = refl
count_stage_none video_id stage (j ∷ js) h = ground (arith, count_stage_none video_id stage js)

stage_eq→eq : (s t : ProcessingJobStage) → stage_eq s t ≡ true → s ≡ t
stage_eq→eq s t h = ground arith

-- A row for a stage of a video that has none keeps the unique key.
pub append-OneJobPerStage :
    (job : ProcessingJob) (js : List ProcessingJob)
    → any_where (λ j. j.video_id == job.video_id && stage_eq j.stage job.stage) js ≡ false
    → OneJobPerStage js
    → OneJobPerStage (js ++ (job ∷ []))
unfolding OneJobPerStage count_stage
append-OneJobPerStage job js fresh one v s =
    rw (count_stage-append v s js (job ∷ []))
      (elim (Bool-cases (job.video_id == v && stage_eq job.stage s)) [
        | inr other ↦ rw other (omega (arith, one v s))
        | inl same ↦
            let k = and_true (job.video_id == v) (stage_eq job.stage s) same in
            let none_yet =
              rw (==→eq job.video_id v k.0, stage_eq→eq job.stage s k.1) at
                (count_stage_none job.video_id job.stage js fresh) in
            rw (same, none_yet) (omega arith)
      ])

-- Queuing the next stage keeps the unique key: whatever the setting, the stage and the video, if
-- no stage of a video has two rows before, none has afterwards.
pub queue_next_stage_if_enabled-OneJobPerStage :
    (video : Video) (completed_stage : ProcessingJobStage) (settings : WorkerSettings) (new_id : ℕ)
    (db : Db)
    → OneJobPerStage db.jobs
    → OneJobPerStage (queue_next_stage_if_enabled video completed_stage settings new_id db).1.jobs
unfolding queue_next_stage_if_enabled queue_stage add_job pending_job write_audit
queue_next_stage_if_enabled-OneJobPerStage video completed_stage settings new_id db one =
    elim (Bool-cases settings.cv_pipeline_enabled) [
      | inr off ↦ rw off one
      | inl on ↦ rw on (elim (Option-cases (next_stage completed_stage)) [
        | inl n ↦ rw n one
        | inr (next, e) ↦
            let taken = any_where (λ j. j.video_id == video.id && stage_eq j.stage next) db.jobs in
            rw e (elim (Bool-cases taken) [
              | inl t ↦ rw t one
              | inr f ↦ rw f (
                  append-OneJobPerStage (pending_job new_id video.id video.team_id next db.now)
                    db.jobs f one)
            ])
      ])
    ]
