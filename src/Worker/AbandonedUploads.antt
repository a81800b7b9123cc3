-- ===== src/Worker/AbandonedUploads.antt =====
-- apps/worker/src/nextballup_worker/runtime/cleanup.py: `cleanup_abandoned_uploads`. What it asks of
-- the store is best effort and leaves no trace. `elsewhere` is what other sessions commit between the
-- SELECT and each row's transaction.
pub mod Late
use Prim.Native.String.{String}
use nextballup.Prelude.{
  if◌then◌else◌, ℕ, ◌+◌, Bool, true, false, ◌&&◌, Option, none, some, List, [], ◌∷◌, ◌==◌, ltb,
  is_some, filter_where, update_where,
}
use nextballup.Core.Enums.{VideoStatus, status_eq}
use nextballup.Core.Errors.{AuditAction}
use nextballup.Core.Json.{Json, Fields, num_or_null}
use nextballup.Db.{Db, Video, AuditLog, write_audit}
use nextballup.Worker.Jobs.{update_videos}
use nextballup.Api.Billing.{release_video_upload_quota_reservation}

-- `upload_expires_at < now - grace`, where NULL compares to nothing.
unfoldable pub is_abandoned : ℕ → ℕ → Video → Bool
is_abandoned grace_seconds now v =
    status_eq v.status VideoStatus.pending_upload
    && elim v.upload_expires_at [ none ↦ false | some at ↦ ltb (at + grace_seconds) now ]

abbrev upload_abandoned : Video → AuditLog
upload_abandoned video = record {
  action = AuditAction.video_upload_abandoned;
  actor_user_id = none;
  resource_type = "video";
  resource_id = some video.id;
  team_id = some video.team_id;
  extra =
      Fields.field "upload_expires_at" (num_or_null video.upload_expires_at)
        (Fields.field "had_upload_id" (Json.flag (is_some video.upload_id)) Fields.end);
}

abbrev cleared_upload : Video → Video
cleared_upload v = record v {
  status = VideoStatus.failed;
  upload_id = none;
  upload_expires_at = none;
}

-- The session writes the UPDATE through to the row in memory, on what that row says.
abbrev written_through : Video → Video
written_through video =
    if status_eq video.status VideoStatus.pending_upload then cleared_upload video else video

-- The body of the loop, on the row as the SELECT read it. The UPDATE's result is not looked at.
unfoldable pub abandon_video : Video → Db → Db
unfolding update_videos release_video_upload_quota_reservation write_audit
abandon_video video db =
    let failed =
      (update_videos (λ v. v.id == video.id && status_eq v.status VideoStatus.pending_upload)
        cleared_upload db).1 in
    write_audit (upload_abandoned (written_through video))
      (release_video_upload_quota_reservation video.team_id video.id "abandoned_upload_cleanup"
        failed).1

unfoldable pub abandon_videos : (ℕ → Db → Db) → List Video → Db → List ℕ × Db
unfolding abandon_video
abandon_videos elsewhere [] db = ([], db)
abandon_videos elsewhere (video ∷ videos) db =
    let rest = abandon_videos elsewhere videos (abandon_video video (elsewhere video.id db)) in
    (video.id ∷ rest.0, rest.1)

unfoldable pub cleanup_abandoned_uploads : (ℕ → Db → Db) → ℕ → Db → List ℕ × Db
unfolding abandon_videos is_abandoned filter_where
cleanup_abandoned_uploads elsewhere grace_seconds db =
    abandon_videos elsewhere (filter_where (is_abandoned grace_seconds db.now) db.videos) db
