-- ===== src/Worker/CvArtifacts.antt =====
-- apps/worker/src/nextballup_worker/runtime/cv_pipeline.py: the choice of the model artifact
-- of a stage, and the result that the stage reports.
pub mod Entitlement
use nextballup.Prelude.{
  ℕ, Bool, true, false, not, ◌&&◌, ◌||◌, Option, none, some, List, [], ◌∷◌, ◌++◌, ◌==◌, leb,
  if◌then◌else◌, is_none, is_some, find_where, filter_where, any_where,
}
use nextballup.Core.Text.{Text, codes, text_eq, is_blank}
use nextballup.Core.Enums.{
  ProcessingJobStage, ProcessingJobStatus, VideoStatus, ModelArtifactStatus, stage_eq, stage_value,
  status_eq, is_completed,
}
use nextballup.Core.Json.{Json, Fields, num_or_null, str_or_null}
use nextballup.Db.{Db, Video, ProcessingJob, CvModelArtifact, Game}
use nextballup.Worker.CvStages.{WorkerSettings}

-- `_stage_requires_artifact`
unfoldable pub stage_requires_artifact : WorkerSettings → ProcessingJobStage → Bool
stage_requires_artifact settings stage =
    settings.cv_require_model_artifacts
    && any_where (text_eq (stage_value stage)) settings.cv_model_artifact_required_stages

abbrev is_active_artifact : ModelArtifactStatus → Bool
is_active_artifact ModelArtifactStatus.active = true
is_active_artifact _ = false

unfoldable pub entitled : ProcessingJobStage → ℕ → CvModelArtifact → Bool
entitled stage plan_tier a =
    stage_eq a.stage stage
    && (is_active_artifact a.status && (a.commercial_use_allowed && leb a.min_plan_tier plan_tier))

-- The greater of two artifacts by ORDER BY min_plan_tier DESC, created_at DESC.
unfoldable pub better : CvModelArtifact → Option CvModelArtifact → Option CvModelArtifact
better a none = some a
better a (some b) =
    if a.min_plan_tier == b.min_plan_tier
    then (if leb b.created_at a.created_at then some a else some b)
    else if leb b.min_plan_tier a.min_plan_tier
    then some a
    else some b

unfoldable pub best : List CvModelArtifact → Option CvModelArtifact
unfolding better
best [] = none
best (a ∷ as_) = better a (best as_)

-- `_active_artifact_for_stage`
unfoldable pub active_artifact_for_stage : ProcessingJobStage → ℕ → Db → Option CvModelArtifact
unfolding best entitled filter_where
active_artifact_for_stage stage plan_tier db =
    best (filter_where (entitled stage plan_tier) db.artifacts)

abbrev pub artifact_id : Option CvModelArtifact → Option ℕ
artifact_id none = none
artifact_id (some a) = some a.id

-- `_stage_metadata`
unfoldable pub stage_metadata :
    ProcessingJobStage → Video → Option Game → Option CvModelArtifact → Fields
stage_metadata stage video game artifact =
    let shot_clock_enabled : Bool = elim game [ none ↦ false | some g ↦ g.shot_clock_enabled ] in
    let seconds : Option ℕ = elim game [
      | none ↦ none
      | some g ↦ if g.shot_clock_enabled then g.shot_clock_seconds else none
    ] in
    Fields.field "stage" (Json.str (stage_value stage)) (
      Fields.field "contract_only" (Json.flag (is_none artifact)) (
        Fields.field "artifact_id" (num_or_null (artifact_id artifact)) (
          Fields.field "video_id" (Json.num video.id) (
            Fields.field "frame_clock_required" (Json.flag true) (
              Fields.field "shot_clock"
                (Json.obj (
                  Fields.field "enabled" (Json.flag shot_clock_enabled)
                    (Fields.field "seconds" (num_or_null seconds) Fields.end)))
                (Fields.field "outputs"
                  (Json.obj (
                    Fields.field "detections" (Json.num 0) (
                      Fields.field "tracks" (Json.num 0) (
                        Fields.field "events" (Json.num 0)
                          (Fields.field "metrics" (Json.num 0) Fields.end)))))
                  Fields.end))))))
