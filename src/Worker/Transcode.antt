-- ===== src/Worker/Transcode.antt =====
-- apps/worker/src/nextballup_worker/runtime/transcode.py: the run of the transcode stage. What
-- the object store answers, the outcome of `create_browser_mezzanine` of runtime/media.py with the
-- number of heartbeats while it is awaited, and what other sessions commit after each commit of the
-- run (`elsewhere`, by its number) are arguments.
mod Outputs
pub mod Safety
pub mod Invariant
pub mod Finish
use nextballup.Worker.Transcode.Finish.{
  Outside, beat, transcode_started, finish_transcode, materialized_audit,
}
unfoldable pub use Outputs.*
use mathlib.Core.Option
use nextballup.Prelude.{
  ℕ, zero, suc, ◌+◌, ◌*◌, Bool, true, false, not, ◌&&◌, Option, none, some, List, [], ◌∷◌, ◌++◌,
  ◌==◌, if◌then◌else◌, is_some, find_where, or_else, ◌⊎◌, inl, inr,
}
use nextballup.Core.Text.{Text, codes}
use nextballup.Core.Enums.{VideoStatus, ProcessingJobStage, stage_eq, stage_value, status_eq}
use nextballup.Core.Errors.{ErrorCode, AuditAction}
use nextballup.Core.Json.{Json, Fields, num_or_null}
use nextballup.Db.{Db, Video, ProcessingJob, AuditLog, write_audit}
use nextballup.Api.Billing.{resolve_team_plan, TeamPlanContext}
use nextballup.Worker.Errors.{ProcessingFailure}
use nextballup.Worker.Jobs.{
  claim_job, complete_job, touch_heartbeat, get_job, set_video_status, update_videos,
}
use nextballup.Worker.CvStages.{
  WorkerSettings, StageStatus, StageResult, skipped_result, uploader_of, origin_fields, job_audit,
  queue_next_stage_if_enabled,
}
use nextballup.Worker.Verify.{HeadResult, verify_storage}
use nextballup.Worker.Failure.{claimed_job_still_active, handle_task_failure}

-- 3. from the artifact on, in the state after the last heartbeat of the wait.
publish :
    WorkerSettings
    → Outside
    → ProcessingJob
    → Option ℕ
    → Option ℕ
    → Video
    → Fields
    → BrowserMezzanineArtifact
    → ℕ
    → Db
    → StageResult × Db
unfolding materialize_outputs materialized_audit finish_transcode touch_heartbeat
publish settings outside claimed task origin video verification artifact new_id db =
    let written = materialize_outputs video artifact settings claimed.id task db in
    elim written.0 [
      | none ↦ (skipped_result claimed.id (some ErrorCode.processing_cancelled), written.1)
      | some outputs ↦
          let audited =
            materialized_audit claimed origin outputs artifact (outside.elsewhere 4 written.1) in
          finish_transcode settings claimed task origin verification outputs artifact new_id (
            outside.elsewhere 6
              (touch_heartbeat claimed.id (some 80) task (outside.elsewhere 5 audited)))
    ]

-- 3. from the check of the object on.
work :
    WorkerSettings
    → Outside
    → ProcessingJob
    → Option ℕ
    → Option ℕ
    → Video
    → (Text → HeadResult)
    → ℕ
    → Db
    → StageResult × Db
unfolding verify_storage handle_task_failure touch_heartbeat beat publish
work settings outside claimed task origin video head_object new_id db =
    elim (verify_storage head_object outside.decode video) [
      | inl exc ↦ handle_task_failure claimed.id exc task db
      | inr verification ↦
          let halfway = touch_heartbeat claimed.id (some 50) task db in
          let waited =
            beat outside.ticks outside.elsewhere claimed.id task (outside.elsewhere 3 halfway) in
          elim (outside.mezzanine video) [
            | inl exc ↦ handle_task_failure claimed.id exc task waited
            | inr artifact ↦
                publish settings outside claimed task origin video verification artifact new_id
                  waited
          ]
    ]

abbrev pub video_vanished : ProcessingFailure
video_vanished =
    ProcessingFailure.permanent ErrorCode.video_not_found
      (codes "Video row vanished during processing")

abbrev pub storage_missing : ProcessingFailure
storage_missing =
    ProcessingFailure.permanent ErrorCode.storage_not_configured
      (codes "Object storage is not configured")

-- 3. The run of a claimed job, from the heartbeat at 10 per cent on.
run_claimed :
    WorkerSettings → Outside → ProcessingJob → Option ℕ → Option ℕ → ℕ → Db → StageResult × Db
unfolding touch_heartbeat load_video handle_task_failure work
run_claimed settings outside claimed task origin new_id db =
    let begun = outside.elsewhere 2 (touch_heartbeat claimed.id (some 10) task db) in
    elim (load_video claimed.video_id begun) [
      | none ↦ handle_task_failure claimed.id video_vanished task begun
      | some video ↦ elim outside.head_object [
        | none ↦ handle_task_failure claimed.id storage_missing task begun
        | some head_object ↦
            work settings outside claimed task origin video head_object new_id begun
      ]
    ]

claimed_run :
    WorkerSettings → Outside → ℕ → Option ℕ → ℕ → Option ProcessingJob × Db → StageResult × Db
unfolding run_claimed transcode_started uploader_of
claimed_run settings outside job_id task new_id (none, db) = (skipped_result job_id none, db)
claimed_run settings outside job_id task new_id (some claimed, db) =
    let mine = outside.elsewhere 0 db in
    run_claimed settings outside claimed task (uploader_of claimed.video_id mine) new_id
      (outside.elsewhere 1 (transcode_started claimed task mine))

-- The result, or the PermanentProcessingError of a job of another stage.
unfoldable pub execute_transcode :
    WorkerSettings → Outside → ℕ → Option ℕ → ℕ → Db → (ProcessingFailure ⊎ StageResult) × Db
unfolding claimed_run claim_job
execute_transcode settings outside job_id task new_id db = elim (get_job job_id db) [
  | none ↦ (inr (skipped_result job_id (some (ErrorCode.other (codes "not_found")))), db)
  | some job ↦
      if stage_eq job.stage ProcessingJobStage.transcode
      then (let ran = claimed_run settings outside job.id task new_id (claim_job job.id task db) in
          (inr ran.0, ran.1))
      else (
        inl (
            ProcessingFailure.permanent ErrorCode.processing_job_terminal
              (codes "Unexpected stage: " ++ stage_value job.stage)),
        db,
      )
]
