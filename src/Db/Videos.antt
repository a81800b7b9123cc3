-- ===== src/Db/Videos.antt =====
-- packages/db/src/nextballup_db/models/video.py and models/cv.py: the rows of `videos`,
-- `processing_jobs`, `video_events` and `cv_model_artifacts`. A UUID is a number that is only compared, a timestamp
-- the number of seconds, a float column its value in thousandths. Columns that no modelled handler
-- reads or writes are left out.
use nextballup.Prelude.{ℕ, Bool, Option}
use nextballup.Core.Text.{Text}
use nextballup.Core.Enums.{
  VideoEventType, ReviewStatus, VideoStatus, ProcessingJobStage, ProcessingJobStatus,
  ModelArtifactStatus,
}
use nextballup.Core.Json.{Fields}

pub record Video : Type 0 where
  pub id : ℕ
  pub game_id : ℕ
  pub team_id : ℕ
  pub uploaded_by : Option ℕ
  pub privacy_consent_id : Option ℕ
  pub filename : Text
  pub content_type : Text
  pub storage_key_raw : Option Text
  pub storage_key_mezzanine : Option Text
  pub storage_key_hls : Option Text
  pub status : VideoStatus
  pub file_size_bytes : Option ℕ
  pub duration_seconds : Option ℕ
  pub width : Option ℕ
  pub height : Option ℕ
  pub fps : Option ℕ
  pub codec : Option Text
  pub checksum_sha256 : Option Text
  pub storage_etag : Option Text
  pub storage_output_sha256 : Option Text
  pub upload_id : Option Text
  pub upload_expires_at : Option ℕ
  pub raw_retention_expires_at : Option ℕ
  pub raw_delete_requested_at : Option ℕ
  pub raw_delete_failed_at : Option ℕ
  pub raw_storage_deleted_at : Option ℕ
  pub raw_deleted_at : Option ℕ
  pub raw_delete_reason : Option Text
  pub demo_preview_storage_key : Option Text

pub record ProcessingJob : Type 0 where
  pub id : ℕ
  pub video_id : ℕ
  pub team_id : ℕ
  pub stage : ProcessingJobStage
  pub status : ProcessingJobStatus
  pub progress_percent : ℕ
  pub celery_task_id : Option ℕ
  pub started_at : Option ℕ
  pub completed_at : Option ℕ
  pub error_message : Option Text
  pub result_metadata : Option Fields
  pub heartbeat_at : Option ℕ
  pub created_at : ℕ

pub record CvModelArtifact : Type 0 where
  pub id : ℕ
  pub stage : ProcessingJobStage
  pub status : ModelArtifactStatus
  pub commercial_use_allowed : Bool
  pub min_plan_tier : ℕ
  pub created_at : ℕ

pub record VideoEvent : Type 0 where
  pub id : ℕ
  pub video_id : ℕ
  pub team_id : ℕ
  pub event_type : VideoEventType
  pub event_time_ms : ℕ
  pub clip_start_time_ms : Option ℕ
  pub clip_end_time_ms : Option ℕ
  pub output_frame : ℕ
  pub shot_clock_enabled : Bool
  pub confidence : Option ℕ
  pub review_status : ReviewStatus
  pub created_at : ℕ
  pub event_metadata : Option Fields

-- The team of a game, and the columns that the CV stage reports.
pub record Game : Type 0 where
  pub id : ℕ
  pub team_id : ℕ
  pub shot_clock_enabled : Bool
  pub shot_clock_seconds : Option ℕ
