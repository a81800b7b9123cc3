-- ===== src/Worker/AbandonedUploads/Late.antt =====
-- cleanup.py and billing.py: an upload that is completed while the cleanup is on its way to it.
use nextballup.Prelude.{◌≡◌, refl, false, ◌&&◌, none, some, ◌==◌, find_where, update_where_none}
use nextballup.Prelude.Int.{negsuc, ◌+ℤ◌}
use nextballup.Core.Enums.{VideoStatus, status_eq}
use nextballup.Db.{Db, Video, write_audit}
use nextballup.Worker.Jobs.{update_videos}
use nextballup.Api.Billing.{
  TeamPlanContext, resolve_team_plan, net_reserved, is_spent, release_from, record_usage,
}
use nextballup.Api.Billing.Usage.{net_reserved-release, release-resolved}
use nextballup.Worker.AbandonedUploads.{abandon_video}

-- The cleanup takes one unit off the video's reservation even if the row is no upload any more: when the
-- video has left the pending status since the SELECT, its row stays as it is, but a reservation that is
-- still open, on the account of its team's plan, is lowered by one.
pub abandon_video_late :
    (video : Video) (db : Db) {ctx : TeamPlanContext}
    → find_where (λ v. v.id == video.id && status_eq v.status VideoStatus.pending_upload) db.videos
      ≡ none
    → resolve_team_plan video.team_id db ≡ some ctx
    → is_spent (net_reserved ctx.account_id video.team_id video.id db) ≡ false
    → let after = abandon_video video db in
      (after.videos ≡ db.videos)
      × (net_reserved ctx.account_id video.team_id video.id after
          ≡ negsuc 0 +ℤ net_reserved ctx.account_id video.team_id video.id db)
unfolding abandon_video update_videos write_audit release_from record_usage net_reserved
abandon_video_late video db {ctx} gone resolved reserved =
    let same =
      update_where_none (λ v. v.id == video.id && status_eq v.status VideoStatus.pending_upload)
        (λ v. record v { status = VideoStatus.failed; upload_id = none; upload_expires_at = none })
        db.videos gone in
    rw
      (
        same,
        release-resolved video.team_id video.id "abandoned_upload_cleanup" db resolved,
        reserved,
      )
      (
        refl,
        net_reserved-release ctx.account_id video.team_id video.id "abandoned_upload_cleanup" db,
      )
