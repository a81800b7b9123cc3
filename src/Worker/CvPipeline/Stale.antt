-- ===== src/Worker/CvPipeline/Stale.antt =====
-- cv_pipeline.py: what a whole run of a CV stage keeps, and what its last transaction does to a job
-- that has been closed meanwhile.
use nextballup.Prelude.{
  ℕ, ◌≡◌, refl, false, Option, none, some, ◌==◌, arith, find_where, inl, inr, Bool-cases,
  Option-cases, Sum-cases,
}
use nextballup.Core.Text.{Text}
use nextballup.Core.Enums.{is_open}
use nextballup.Core.Errors.{ErrorCode}
use nextballup.Core.Json.{Fields}
use nextballup.Db.{Db, Video, ProcessingJob, CvModelArtifact, write_audit}
use nextballup.Api.Billing.{resolve_team_plan}
use nextballup.Worker.Jobs.{claim_job, complete_job, touch_heartbeat, get_job}
use nextballup.Worker.Jobs.Invariant.{
  JobsOk, claim_job-JobsOk, touch_heartbeat-JobsOk, complete_job-JobsOk, fail_job-JobsOk,
}
use nextballup.Worker.Jobs.Laws.{WorkerOp, run_op, run_op_terminal}
use nextballup.Worker.CvStages.{WorkerSettings, StageStatus, is_cv_stage}
use nextballup.Worker.CvStages.Rows.{queue_next_stage_if_enabled-JobsOk, get_job-queue_next}
use nextballup.Worker.CvPipeline.{
  terminal_cv_failure, ready_video, upstream_done, choose_artifact, finish_cv_stage, run_cv_model,
  run_claimed_cv_stage, cv_started, claim_and_run, execute_cv_stage,
}

-- The last transaction of a CV stage does not look at what `complete_job` took: when the job has been
-- failed or completed meanwhile, the run still reports `completed`, while the row stays as it was.
pub finish_cv_stage_closed :
    (settings : WorkerSettings) (claimed : ProcessingJob) (origin : Option ℕ) (video : Video)
    (artifact : Option CvModelArtifact) (metadata : Fields) (new_id : ℕ) (db : Db)
    {job : ProcessingJob}
    → get_job claimed.id db ≡ some job
    → is_open job.status ≡ false
    → let ran = finish_cv_stage settings claimed origin video artifact metadata new_id db in
      (ran.0.status ≡ StageStatus.completed) × (get_job claimed.id ran.1 ≡ some job)
unfolding finish_cv_stage write_audit get_job run_op
finish_cv_stage_closed settings claimed origin video artifact metadata new_id db {job} e closed =
    let kept : find_where (λ i. i.id == claimed.id)
          (complete_job claimed.id (some metadata) none db).1.jobs
        ≡ some job =
      run_op_terminal (WorkerOp.complete claimed.id (some metadata) none) claimed.id db e closed in
    (refl, get_job-queue_next video claimed.stage settings new_id _ claimed.id kept)

terminal_cv_failure-JobsOk :
    (job : ProcessingJob) (code : ErrorCode) (message : Text) (db : Db)
    → JobsOk db
    → JobsOk (terminal_cv_failure job code message db).1
unfolding terminal_cv_failure write_audit
terminal_cv_failure-JobsOk job code message db h = fail_job-JobsOk job.id code message none db h

finish_cv_stage-JobsOk :
    (settings : WorkerSettings) (claimed : ProcessingJob) (origin : Option ℕ) (video : Video)
    (artifact : Option CvModelArtifact) (metadata : Fields) (new_id : ℕ) (db : Db)
    → JobsOk db
    → JobsOk (finish_cv_stage settings claimed origin video artifact metadata new_id db).1
unfolding finish_cv_stage write_audit
finish_cv_stage-JobsOk settings claimed origin video artifact metadata new_id db h =
    queue_next_stage_if_enabled-JobsOk video claimed.stage settings new_id _
      (complete_job-JobsOk claimed.id (some metadata) none db h)

module _ (settings : WorkerSettings) (elsewhere : ℕ → Db → Db)
    (others : (n : ℕ) (d : Db) → JobsOk d → JobsOk (elsewhere n d)) where
  run_cv_model-JobsOk :
      (claimed : ProcessingJob) (origin : Option ℕ) (video : Video) (new_id : ℕ) (db : Db)
      → JobsOk db
      → JobsOk (run_cv_model settings elsewhere claimed origin video new_id db).1
  unfolding run_cv_model
  run_cv_model-JobsOk claimed origin video new_id db h =
      let at_25 : Db = elsewhere 2 (touch_heartbeat claimed.id (some 25) none db) in
      let h25 : JobsOk at_25 =
        others 2 _ (touch_heartbeat-JobsOk claimed.id (some 25) none db (omega arith) h) in
      elim (Sum-cases
        (choose_artifact settings claimed (resolve_team_plan video.team_id at_25) at_25)) [
          | inl (message, e) ↦
              rw (e, run_cv_model) (terminal_cv_failure-JobsOk claimed _ message at_25 h25)
          | inr (artifact, e) ↦
              rw (e, run_cv_model)
                (finish_cv_stage-JobsOk settings claimed origin video artifact _ new_id _ (
                  others 3 _
                    (touch_heartbeat-JobsOk claimed.id (some 75) none at_25 (omega arith) h25)))
        ]

  run_claimed_cv_stage-JobsOk :
      (claimed : ProcessingJob) (origin : Option ℕ) (new_id : ℕ) (db : Db)
      → JobsOk db
      → JobsOk (run_claimed_cv_stage settings elsewhere claimed origin new_id db).1
  unfolding run_claimed_cv_stage
  run_claimed_cv_stage-JobsOk claimed origin new_id db h =
      elim (Bool-cases settings.cv_pipeline_enabled) [
        | inr off ↦ rw (off, run_claimed_cv_stage) (terminal_cv_failure-JobsOk claimed _ _ db h)
        | inl on ↦ elim (Option-cases (ready_video claimed.video_id db)) [
          | inl n ↦ rw (on, n, run_claimed_cv_stage) (terminal_cv_failure-JobsOk claimed _ _ db h)
          | inr (video, e) ↦ elim (Bool-cases (upstream_done video.id claimed.stage db)) [
            | inl t ↦
                rw (on, e, t, run_claimed_cv_stage)
                  (run_cv_model-JobsOk claimed origin video new_id db h)
            | inr f ↦
                rw (on, e, f, run_claimed_cv_stage) (terminal_cv_failure-JobsOk claimed _ _ db h)
          ]
        ]
      ]

  claim_and_run-JobsOk :
      (job : ProcessingJob) (task : Option ℕ) (new_id : ℕ) (claim : Option ProcessingJob × Db)
      → JobsOk claim.1
      → JobsOk (claim_and_run settings elsewhere job task new_id claim).1
  unfolding claim_and_run cv_started write_audit
  claim_and_run-JobsOk job task new_id (none, db) h = h
  claim_and_run-JobsOk job task new_id (some claimed, db) h =
      run_claimed_cv_stage-JobsOk claimed _ new_id _ (others 1 _ (others 0 db h))

-- A run of a CV stage keeps the rows of the jobs well-formed on every branch, whatever other sessions
-- commit in between, as long as they keep them well-formed.
pub execute_cv_stage-JobsOk :
    (settings : WorkerSettings) (elsewhere : ℕ → Db → Db) (job_id : ℕ) (task : Option ℕ)
    (new_id : ℕ) (db : Db)
    → ((n : ℕ) (d : Db) → JobsOk d → JobsOk (elsewhere n d))
    → JobsOk db
    → JobsOk (execute_cv_stage settings elsewhere job_id task new_id db).1
unfolding execute_cv_stage
execute_cv_stage-JobsOk settings elsewhere job_id task new_id db others h =
    elim (Option-cases (get_job job_id db)) [
      | inl n ↦ rw (n, execute_cv_stage) h
      | inr (job, e) ↦ elim (Bool-cases (is_cv_stage job.stage)) [
        | inl t ↦
            rw (e, t, execute_cv_stage)
              (claim_and_run-JobsOk settings elsewhere others job task new_id
                (claim_job job.id task db) (claim_job-JobsOk job.id task db h))
        | inr f ↦ rw (e, f, execute_cv_stage) (terminal_cv_failure-JobsOk job _ _ db h)
      ]
    ]
