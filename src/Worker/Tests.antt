-- ===== src/Worker/Tests.antt =====
-- Small databases for the worker's tests, and the theorems at them.
mod Runs
mod Passes
use nextballup.Prelude.{ℕ, Bool, true, false, Option, none, some, List, [], ◌∷◌, All, arith}
use nextballup.Core.Text.{codes}
use nextballup.Core.Enums.{
  VideoStatus, ProcessingJobStage, ProcessingJobStatus, ModelArtifactStatus,
}
use nextballup.Core.Errors.{ErrorCode}
use nextballup.Core.Json.{Fields}
use nextballup.Db.{Db, Video, ProcessingJob, CvModelArtifact}
use nextballup.Worker.Jobs.Invariant.{JobOk, JobsOk}
use nextballup.Worker.CvStages.{WorkerSettings}

abbrev pub film : Video
film = record {
  id = 1;
  game_id = 1;
  team_id = 1;
  uploaded_by = some 7;
  privacy_consent_id = none;
  filename = codes "film.mp4";
  content_type = codes "video/mp4";
  storage_key_raw = some (codes "raw/1");
  storage_key_mezzanine = none;
  storage_key_hls = none;
  status = VideoStatus.processing;
  file_size_bytes = some 100;
  duration_seconds = none;
  width = none;
  height = none;
  fps = none;
  codec = none;
  checksum_sha256 = none;
  storage_etag = none;
  storage_output_sha256 = none;
  upload_id = none;
  upload_expires_at = none;
  raw_retention_expires_at = none;
  raw_delete_requested_at = none;
  raw_delete_failed_at = none;
  raw_storage_deleted_at = none;
  raw_deleted_at = none;
  raw_delete_reason = none;
  demo_preview_storage_key = none;
}

-- A transcode that task 9 runs, with a heartbeat at 90.
abbrev pub running_job : ProcessingJob
running_job = record {
  id = 5;
  video_id = 1;
  team_id = 1;
  stage = ProcessingJobStage.transcode;
  status = ProcessingJobStatus.running;
  progress_percent = 50;
  celery_task_id = some 9;
  started_at = some 80;
  completed_at = none;
  error_message = none;
  result_metadata = none;
  heartbeat_at = some 90;
  created_at = 70;
}

abbrev pub failed_job : ProcessingJob
failed_job = record running_job {
  id = 6;
  video_id = 2;
  status = ProcessingJobStatus.failed;
  completed_at = some 85;
  error_message = some (codes "[INTERNAL_ERROR] lost");
}

abbrev pub waiting_job : ProcessingJob
waiting_job = record running_job {
  id = 8;
  video_id = 3;
  status = ProcessingJobStatus.pending;
  progress_percent = 0;
  celery_task_id = none;
  started_at = none;
  heartbeat_at = none;
}

abbrev pub artifact_of : ℕ → ℕ → CvModelArtifact
artifact_of id tier = record {
  id = id;
  stage = ProcessingJobStage.detection;
  status = ModelArtifactStatus.active;
  commercial_use_allowed = true;
  min_plan_tier = tier;
  created_at = 10;
}

abbrev pub store : Db
store = record {
  videos = film ∷ [];
  jobs = running_job ∷ failed_job ∷ waiting_job ∷ [];
  artifacts = artifact_of 1 0 ∷ artifact_of 2 1 ∷ artifact_of 3 3 ∷ [];
  games = [];
  events = [];
  plans = [];
  accounts = [];
  links = [];
  subscriptions = [];
  usage = [];
  users = [];
  teams = [];
  memberships = [];
  invites = [];
  consents = [];
  password_reset_tokens = [];
  totp_secrets = [];
  recovery_codes = [];
  refresh_sessions = [];
  audits = [];
  now = 100;
}

abbrev pub settings : WorkerSettings
settings = record {
  raw_video_retention_days = 30;
  cv_pipeline_enabled = true;
  cv_require_model_artifacts = false;
  cv_model_artifact_required_stages = [];
}

-- Other sessions that commit nothing.
abbrev pub alone : ℕ → Db → Db
alone _ db = db

pub store-JobsOk : JobsOk store
store-JobsOk = (ground arith, (ground arith, (ground arith, tt)))
