-- ===== src/Worker/Transcode/Outputs.antt =====
-- transcode.py: the row of the video with its outputs, `_load_video` and `_materialize_outputs`.
use nextballup.Prelude.{
  ℕ, ◌+◌, ◌*◌, ◌&&◌, Option, none, some, ◌==◌, if◌then◌else◌, find_where, or_else,
}
use nextballup.Core.Text.{Text}
use nextballup.Core.Enums.{VideoStatus, status_eq}
use nextballup.Core.Json.{Json, Fields}
use nextballup.Db.{Db, Video}
use nextballup.Api.Billing.{resolve_team_plan, TeamPlanContext}
use nextballup.Worker.Jobs.{update_videos}
use nextballup.Worker.CvStages.{WorkerSettings}
use nextballup.Worker.Failure.{claimed_job_still_active}

-- `BrowserMezzanineArtifact`
pub record BrowserMezzanineArtifact : Type 0 where
  pub mezzanine_key : Text
  pub storage_etag : Option Text
  pub output_sha256 : Text
  pub output_size_bytes : ℕ
  pub duration_seconds : Option ℕ
  pub width : Option ℕ
  pub height : Option ℕ
  pub fps : Option ℕ
  pub codec : Option Text
  pub transcoder : Text

unfoldable pub load_video : ℕ → Db → Option Video
load_video video_id db = find_where (λ v. v.id == video_id) db.videos

retention_days : Option TeamPlanContext → WorkerSettings → ℕ
retention_days none settings = settings.raw_video_retention_days
retention_days (some ctx) settings =
    or_else ctx.raw_video_retention_days settings.raw_video_retention_days

-- The values of the UPDATE of `_materialize_outputs`.
materialized : BrowserMezzanineArtifact → ℕ → Video → Video
materialized artifact expires v = record v {
  storage_key_mezzanine = some artifact.mezzanine_key;
  storage_etag = artifact.storage_etag;
  storage_output_sha256 = some artifact.output_sha256;
  duration_seconds = artifact.duration_seconds;
  width = artifact.width;
  height = artifact.height;
  fps = artifact.fps;
  codec = artifact.codec;
  raw_retention_expires_at = some expires;
}

-- The row that the UPDATE returned, and the outputs that stand for it.
unfoldable pub recorded_outputs : BrowserMezzanineArtifact → Option Video × Db → Option Fields × Db
recorded_outputs artifact (none, db) = (none, db)
recorded_outputs artifact (some _, db) = (
  some (
      Fields.field "mezzanine" (Json.str artifact.mezzanine_key)
        (Fields.field "hls" Json.null (Fields.field "thumbnail" Json.null Fields.end))),
  db,
)

-- Some outputs and the new state, or None; `video` is the row as the run loaded it.
unfoldable pub materialize_outputs :
    Video → BrowserMezzanineArtifact → WorkerSettings → ℕ → Option ℕ → Db → Option Fields × Db
unfolding claimed_job_still_active recorded_outputs update_videos materialized retention_days
    resolve_team_plan
materialize_outputs video artifact settings job_id celery_task_id db =
    if claimed_job_still_active job_id celery_task_id db
    then (let days = retention_days (resolve_team_plan video.team_id db) settings in
        let expires = or_else video.raw_retention_expires_at (db.now + days * 86400) in
        recorded_outputs artifact (
          update_videos (λ v. v.id == video.id && status_eq v.status VideoStatus.processing)
            (materialized artifact expires) db))
    else (none, db)
