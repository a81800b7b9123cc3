-- ===== src/Worker/CvStages.antt =====
-- apps/worker/src/nextballup_worker/runtime/cv_pipeline.py: the order of the stages and the job
-- of the next stage, with `originating_user_extra` of audit.py. The id that a new row gets
-- from `uuid.uuid4` is an argument.
pub mod Order
pub mod Rows
use nextballup.Prelude.{
  ℕ, Bool, true, false, not, ◌&&◌, ◌||◌, Option, none, some, List, [], ◌∷◌, ◌++◌, ◌==◌, leb,
  if◌then◌else◌, is_none, is_some, find_where, filter_where, any_where,
}
use nextballup.Core.Text.{Text, codes, text_eq, is_blank}
use nextballup.Core.Enums.{
  ProcessingJobStage, ProcessingJobStatus, VideoStatus, ModelArtifactStatus, stage_eq, stage_value,
  status_eq, is_completed,
}
use nextballup.Core.Errors.{ErrorCode, AuditAction, code_value}
use nextballup.Core.Json.{Json, Fields, num_or_null, str_or_null}
use nextballup.Db.{Db, Video, ProcessingJob, CvModelArtifact, Game, AuditLog, write_audit}

pub record WorkerSettings : Type 0 where
  pub raw_video_retention_days : ℕ
  pub cv_pipeline_enabled : Bool
  pub cv_require_model_artifacts : Bool
  pub cv_model_artifact_required_stages : List Text

-- `_NEXT_STAGE`
unfoldable pub next_stage : ProcessingJobStage → Option ProcessingJobStage
next_stage ProcessingJobStage.transcode = some ProcessingJobStage.detection
next_stage ProcessingJobStage.detection = some ProcessingJobStage.tracking
next_stage ProcessingJobStage.tracking = some ProcessingJobStage.court_mapping
next_stage ProcessingJobStage.court_mapping = some ProcessingJobStage.events
next_stage ProcessingJobStage.events = some ProcessingJobStage.metrics
next_stage ProcessingJobStage.metrics = none

-- The inversion {next: stage for stage, next in _NEXT_STAGE.items()}.
all_stages : List ProcessingJobStage
all_stages =
    ProcessingJobStage.transcode ∷ ProcessingJobStage.detection ∷ ProcessingJobStage.tracking
    ∷ ProcessingJobStage.court_mapping ∷ ProcessingJobStage.events ∷ ProcessingJobStage.metrics ∷ []

leads_to : ProcessingJobStage → ProcessingJobStage → Bool
unfolding next_stage
leads_to target stage = elim (next_stage stage) [ none ↦ false | some s ↦ stage_eq s target ]

-- `_UPSTREAM_STAGE`, and `_CV_STAGES` as its keys
unfoldable pub upstream_stage : ProcessingJobStage → Option ProcessingJobStage
unfolding all_stages leads_to find_where
upstream_stage stage = find_where (leads_to stage) all_stages

unfoldable pub is_cv_stage : ProcessingJobStage → Bool
unfolding upstream_stage
is_cv_stage stage = is_some (upstream_stage stage)

-- `originating_user_extra`: the uploader of the video, if it is known.
unfoldable pub uploader_of : ℕ → Db → Option ℕ
uploader_of video_id db = elim (find_where (λ v. v.id == video_id) db.videos) [
  | none ↦ none
  | some v ↦ v.uploaded_by
]

abbrev pub origin_fields : Option ℕ → Fields → Fields
origin_fields none rest = rest
origin_fields (some u) rest = Fields.field "originating_user_id" (Json.num u) rest

-- A worker's audit entry on a job.
abbrev pub job_audit : AuditAction → ProcessingJob → Fields → AuditLog
job_audit action j extra = record {
  action = action;
  actor_user_id = none;
  resource_type = "processing_job";
  resource_id = some j.id;
  team_id = some j.team_id;
  extra = extra;
}

-- ProcessingJob(video_id=..., team_id=..., stage=..., status=PENDING, progress_percent=0)
unfoldable pub pending_job : ℕ → ℕ → ℕ → ProcessingJobStage → ℕ → ProcessingJob
pending_job id video_id team_id stage now = record {
  id = id;
  video_id = video_id;
  team_id = team_id;
  stage = stage;
  status = ProcessingJobStatus.pending;
  progress_percent = 0;
  celery_task_id = none;
  started_at = none;
  completed_at = none;
  error_message = none;
  result_metadata = none;
  heartbeat_at = none;
  created_at = now;
}

unfoldable pub add_job : ProcessingJob → Db → Db
add_job j db = record db { jobs = db.jobs ++ (j ∷ []) }

-- The part below the lookup of the next stage.
queue_stage :
    Video → ProcessingJobStage → Option ProcessingJobStage → ℕ → Db → Option ProcessingJob × Db
unfolding pending_job add_job write_audit
queue_stage video completed_stage none new_id db = (none, db)
queue_stage video completed_stage (some next) new_id db =
    if any_where (λ j. j.video_id == video.id && stage_eq j.stage next) db.jobs
    then (none, db)
    else (let job = pending_job new_id video.id video.team_id next db.now in
        (
          some job,
          write_audit
              (job_audit AuditAction.video_processing_queued job (
                Fields.field "video_id" (Json.num video.id) (
                  Fields.field "stage" (Json.str (stage_value next)) (
                    Fields.field "source"
                      (Json.str (stage_value completed_stage ++ codes "_completed"))
                      (origin_fields video.uploaded_by Fields.end)))))
              (add_job job db),
        ))

unfoldable pub queue_next_stage_if_enabled :
    Video → ProcessingJobStage → WorkerSettings → ℕ → Db → Option ProcessingJob × Db
unfolding queue_stage next_stage
queue_next_stage_if_enabled video completed_stage settings new_id db =
    if settings.cv_pipeline_enabled
    then queue_stage video completed_stage (next_stage completed_stage) new_id db
    else (none, db)

-- `CVStageResult` and `TranscodeResult`; the job id is the caller's.
pub data StageStatus : Type 0 where
  skipped failed completed : StageStatus

pub record StageResult : Type 0 where
  pub job_id : ℕ
  pub status : StageStatus
  pub retryable : Bool
  pub error_code : Option ErrorCode

abbrev pub skipped_result : ℕ → Option ErrorCode → StageResult
skipped_result job_id error_code = record {
  job_id = job_id;
  status = StageStatus.skipped;
  retryable = false;
  error_code = error_code;
}
