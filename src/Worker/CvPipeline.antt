-- ===== src/Worker/CvPipeline.antt =====
-- apps/worker/src/nextballup_worker/runtime/cv_pipeline.py: `execute_cv_stage`, the run of one CV stage.
-- What other sessions commit while the run waits is the argument `elsewhere`, by the number of the
-- commit that went before. The claimed row that the run holds is the one that the claim returned.
pub mod Stale
use nextballup.Prelude.{
  ℕ, Bool, true, false, not, ◌&&◌, ◌||◌, Option, none, some, List, [], ◌∷◌, ◌++◌, ◌==◌, leb,
  if◌then◌else◌, is_none, is_some, find_where, filter_where, any_where, ◌⊎◌, inl, inr,
}
use nextballup.Core.Text.{Text, codes, text_eq, is_blank, decimal}
use nextballup.Core.Enums.{
  ProcessingJobStage, ProcessingJobStatus, VideoStatus, stage_eq, stage_value, status_eq,
  is_completed,
}
use nextballup.Core.Errors.{ErrorCode, AuditAction, code_value}
use nextballup.Core.Json.{Json, Fields, num_or_null, str_or_null}
use nextballup.Db.{Db, Video, ProcessingJob, CvModelArtifact, Game, AuditLog, write_audit}
use nextballup.Api.Billing.{resolve_team_plan, TeamPlanContext}
use nextballup.Worker.Jobs.{claim_job, complete_job, fail_job, touch_heartbeat, get_job}
use nextballup.Worker.CvStages.{
  WorkerSettings, StageStatus, StageResult, skipped_result, uploader_of, origin_fields, job_audit,
  upstream_stage, is_cv_stage, queue_next_stage_if_enabled,
}
use nextballup.Worker.CvArtifacts.{
  stage_requires_artifact, active_artifact_for_stage, artifact_id, stage_metadata,
}

unfoldable pub terminal_cv_failure : ProcessingJob → ErrorCode → Text → Db → StageResult × Db
unfolding uploader_of write_audit fail_job
terminal_cv_failure job error_code error_message db =
    let origin = uploader_of job.video_id db in
    (
      record {
        job_id = job.id;
        status = StageStatus.failed;
        retryable = false;
        error_code = some error_code;
      },
      write_audit
          (job_audit AuditAction.video_processing_failed job (
            Fields.field "video_id" (Json.num job.video_id) (
              Fields.field "stage" (Json.str (stage_value job.stage)) (
                Fields.field "error_code" (Json.str (code_value error_code)) (
                  Fields.field "error_message" (Json.str error_message) (
                    Fields.field "retryable" (Json.flag false)
                      (origin_fields origin Fields.end)))))))
          (fail_job job.id error_code error_message none db).1,
    )

-- The video, if the checks on it pass: it is processed and has its browser-safe artifact.
unfoldable pub ready_video : ℕ → Db → Option Video
ready_video video_id db = elim (find_where (λ v. v.id == video_id) db.videos) [
  | none ↦ none
  | some v ↦
      if status_eq v.status VideoStatus.processed && not (is_blank v.storage_key_mezzanine)
      then some v
      else none
]

-- Whether the upstream stage of the video is completed.
unfoldable pub upstream_done : ℕ → ProcessingJobStage → Db → Bool
upstream_done video_id stage db = elim (upstream_stage stage) [
  | none ↦ false
  | some upstream ↦
      any_where
        (λ j. j.video_id == video_id && (stage_eq j.stage upstream && is_completed j.status))
        db.jobs
]

-- f"{upstream.value} must complete before {claimed.stage.value}"
upstream_message : ProcessingJobStage → Text
upstream_message stage = elim (upstream_stage stage) [
  | none ↦ codes " must complete before " ++ stage_value stage
  | some upstream ↦ stage_value upstream ++ (codes " must complete before " ++ stage_value stage)
]

-- The artifact that a run may use, or the message of the error that stops it: a stage that needs an
-- artifact fails without a plan, and without an entitled artifact.
unfoldable pub choose_artifact :
    WorkerSettings → ProcessingJob → Option TeamPlanContext → Db → Text ⊎ Option CvModelArtifact
unfolding stage_requires_artifact active_artifact_for_stage
choose_artifact settings job none db =
    if stage_requires_artifact settings job.stage
    then inl (codes "No billing entitlement context is available for " ++ stage_value job.stage)
    else inr (active_artifact_for_stage job.stage 0 db)
choose_artifact settings job (some ctx) db =
    let artifact = active_artifact_for_stage job.stage ctx.plan_tier db in
    if stage_requires_artifact settings job.stage && is_none artifact
    then inl (
        codes "No commercial CV artifact entitled to plan tier "
        ++ (decimal ctx.plan_tier ++ (codes " is available for " ++ stage_value job.stage)))
    else inr artifact

-- The last transaction of a run: the result of `complete_job` is not looked at.
unfoldable pub finish_cv_stage :
    WorkerSettings
    → ProcessingJob
    → Option ℕ
    → Video
    → Option CvModelArtifact
    → Fields
    → ℕ
    → Db
    → StageResult × Db
unfolding complete_job write_audit queue_next_stage_if_enabled
finish_cv_stage settings claimed origin video artifact metadata new_id db =
    let completed = (complete_job claimed.id (some metadata) none db).1 in
    let audited =
      write_audit
        (job_audit AuditAction.video_processing_completed claimed (
          Fields.field "video_id" (Json.num video.id) (
            Fields.field "stage" (Json.str (stage_value claimed.stage)) (
              Fields.field "artifact_id" (num_or_null (artifact_id artifact))
                (origin_fields origin Fields.end)))))
        completed in
    (
      record {
        job_id = claimed.id;
        status = StageStatus.completed;
        retryable = false;
        error_code = none;
      },
      (queue_next_stage_if_enabled video claimed.stage settings new_id audited).1,
    )

-- From the heartbeat at 25 per cent on; the third and fourth commits are the two heartbeats.
run_cv_model :
    WorkerSettings → (ℕ → Db → Db) → ProcessingJob → Option ℕ → Video → ℕ → Db → StageResult × Db
unfolding touch_heartbeat resolve_team_plan choose_artifact finish_cv_stage terminal_cv_failure
    stage_metadata
run_cv_model settings elsewhere claimed origin video new_id db =
    let at_25 = elsewhere 2 (touch_heartbeat claimed.id (some 25) none db) in
    elim (choose_artifact settings claimed (resolve_team_plan video.team_id at_25) at_25) [
      | inl message ↦ terminal_cv_failure claimed ErrorCode.cv_model_artifact_required message at_25
      | inr artifact ↦
          finish_cv_stage settings claimed origin video artifact
            (stage_metadata claimed.stage video
              (find_where (λ g. g.id == video.game_id) at_25.games) artifact)
            new_id (elsewhere 3 (touch_heartbeat claimed.id (some 75) none at_25))
    ]

-- After the claim, in the state that other sessions have left.
run_claimed_cv_stage :
    WorkerSettings → (ℕ → Db → Db) → ProcessingJob → Option ℕ → ℕ → Db → StageResult × Db
unfolding run_cv_model ready_video upstream_done terminal_cv_failure upstream_message
run_claimed_cv_stage settings elsewhere claimed origin new_id db =
    if not settings.cv_pipeline_enabled
    then terminal_cv_failure claimed ErrorCode.cv_pipeline_disabled
        (codes "CV pipeline is disabled for this deployment") db
    else elim (ready_video claimed.video_id db) [
      | none ↦
          terminal_cv_failure claimed ErrorCode.cv_stage_prerequisite_missing
            (codes "Browser-safe video artifact is required before CV stages run") db
      | some video ↦
          if upstream_done video.id claimed.stage db
          then run_cv_model settings elsewhere claimed origin video new_id db
          else terminal_cv_failure claimed ErrorCode.cv_stage_prerequisite_missing
              (upstream_message claimed.stage) db
    ]

cv_started : ProcessingJob → Option ℕ → Db → Db
unfolding write_audit uploader_of
cv_started claimed celery_task_id db =
    write_audit
      (job_audit AuditAction.video_processing_started claimed (
        Fields.field "video_id" (Json.num claimed.video_id) (
          Fields.field "stage" (Json.str (stage_value claimed.stage)) (
            Fields.field "celery_task_id" (num_or_null celery_task_id)
              (origin_fields (uploader_of claimed.video_id db) Fields.end)))))
      db

-- The claim of a CV job that was found, and the run that follows it.
claim_and_run :
    WorkerSettings
    → (ℕ → Db → Db)
    → ProcessingJob
    → Option ℕ
    → ℕ
    → Option ProcessingJob × Db
    → StageResult × Db
unfolding run_claimed_cv_stage cv_started uploader_of
claim_and_run settings elsewhere job celery_task_id new_id (none, db) =
    (skipped_result job.id none, db)
claim_and_run settings elsewhere job celery_task_id new_id (some claimed, db) =
    let mine = elsewhere 0 db in
    run_claimed_cv_stage settings elsewhere claimed (uploader_of claimed.video_id mine) new_id
      (elsewhere 1 (cv_started claimed celery_task_id mine))

unfoldable pub execute_cv_stage :
    WorkerSettings → (ℕ → Db → Db) → ℕ → Option ℕ → ℕ → Db → StageResult × Db
unfolding claim_and_run terminal_cv_failure claim_job is_cv_stage
execute_cv_stage settings elsewhere job_id celery_task_id new_id db = elim (get_job job_id db) [
  | none ↦ (skipped_result job_id (some (ErrorCode.other (codes "not_found"))), db)
  | some job ↦
      if is_cv_stage job.stage
      then claim_and_run settings elsewhere job celery_task_id new_id
          (claim_job job.id celery_task_id db)
      else terminal_cv_failure job ErrorCode.processing_stage_unknown
          (codes "Unexpected CV stage: " ++ stage_value job.stage) db
]
