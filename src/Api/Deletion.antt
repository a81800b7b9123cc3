-- ===== src/Api/Deletion.antt =====
-- apps/api/src/nextballup_api/routers/videos.py: `cancel_upload` and `delete_failed_video`, with the
-- removal of what the store holds. An error comes with the state that it leaves. Of the `extra` of an
-- audit entry only the reason and whether the quota was released are kept.
pub mod Storage
pub mod Objects
use Prim.Native.String.{String}
use mathlib.Core.Option
use nextballup.Prelude.{
  ℕ, Bool, true, false, not, ◌&&◌, ◌||◌, Option, none, some, List, [], ◌∷◌, ◌++◌, ◌==◌,
  if◌then◌else◌, is_some, is_none, or_else, any_where, filter_where, find_where, update_where,
}
use nextballup.Core.Text.{Text, codes, text_eq, is_blank}
use nextballup.Core.Enums.{VideoStatus, status_eq, status_in}
use nextballup.Core.Errors.{AppError, ErrorClass, ErrorCode, AuditAction}
use nextballup.Core.Json.{Json, Fields}
use nextballup.Db.{Db, User, Video, ProcessingJob, write_audit}
use nextballup.Api.Result.{Result, ok, err, app_error, ◌>>=◌, ◌>>◌}
use nextballup.Api.Billing.{release_video_upload_quota_reservation}
use nextballup.Api.Videos.{storage_error, invalid_state, user_audit, save_video}
use nextballup.Api.Uploads.{video_of_coach, with_video}

-- Which calls of the store succeed.
pub record ObjectRemover : Type 0 where
  pub abort_multipart : Text → Text → Bool
  pub delete_object : Text → Bool

abbrev no_store : AppError
no_store = app_error ErrorClass.service_unavailable_error ErrorCode.storage_not_configured

abbrev abandoned_values : Video → Video
abandoned_values v = record v {
  status = VideoStatus.failed;
  upload_id = none;
  upload_expires_at = none;
}

abbrev reason_field : String → Fields → Fields
reason_field reason rest = Fields.field "reason" (Json.str (codes reason)) rest

abandon_upload : User → Video → Db → Db
unfolding save_video release_video_upload_quota_reservation write_audit
abandon_upload user video db =
    write_audit
      (user_audit AuditAction.video_upload_abandoned user "video" video.id video.team_id
        (reason_field "user_cancelled" Fields.end))
      (release_video_upload_quota_reservation video.team_id video.id "user_cancelled"
        (save_video video.id abandoned_values db)).1

-- Whether an abort of a multipart upload is attempted and raises; none is attempted without a raw key.
unfoldable pub abort_raises : ObjectRemover → Video → Bool
abort_raises store video = elim video.upload_id [
  | none ↦ false
  | some upload_id ↦ elim video.storage_key_raw [
    | none ↦ false
    | some key ↦ not (is_blank (some key)) && not (store.abort_multipart key upload_id)
  ]
]

cancel_pending : Option ObjectRemover → User → Db → Video → Result (Unit {0}) × Db
unfolding abort_raises abandon_upload
cancel_pending storage user db video = elim storage [
  | none ↦ (err no_store, db)
  | some store ↦
      if abort_raises store video
      then (err storage_error, db)
      else (ok tt, abandon_upload user video db)
]

cancel_upload_of : Option ObjectRemover → User → Db → Video → Result (Unit {0}) × Db
unfolding cancel_pending
cancel_upload_of storage user db video =
    if status_eq video.status VideoStatus.failed
    then (ok tt, db)
    else if status_eq video.status VideoStatus.pending_upload
    then cancel_pending storage user db video
    else (err invalid_state, db)

unfoldable pub cancel_upload : Bool → Option ObjectRemover → User → ℕ → Db → Result (Unit {0}) × Db
unfolding with_video video_of_coach cancel_upload_of
cancel_upload verified_only storage user video_id db =
    with_video db (cancel_upload_of storage user db) (video_of_coach verified_only user video_id db)

-- `_video_has_storage_cleanup_work`; an empty `upload_id` counts as none.
unfoldable pub video_has_storage_cleanup_work : Video → Bool
video_has_storage_cleanup_work video =
    not (is_blank video.upload_id)
    || (not (is_blank video.storage_key_raw)
        || (not (is_blank video.storage_key_mezzanine)
            || (not (is_blank video.storage_key_hls)
                || not (is_blank video.demo_preview_storage_key))))

-- The labels of what could not be removed.
pub data CleanupFailure : Type 0 where
  multipart_upload raw mezzanine hls demo_preview : CleanupFailure

-- The loop over the objects; a key that was tried before is passed over.
unfoldable pub delete_objects :
    ObjectRemover
    → List (CleanupFailure × Option Text)
    → List Text
    → List CleanupFailure
    → List CleanupFailure
unfolding any_where text_eq
delete_objects store [] attempted failures = failures
delete_objects store ((label, none) ∷ objects) attempted failures =
    delete_objects store objects attempted failures
delete_objects store ((label, some key) ∷ objects) attempted failures =
    if is_blank (some key) || any_where (λ k. text_eq k key) attempted
    then delete_objects store objects attempted failures
    else delete_objects store objects (key ∷ attempted)
        (if store.delete_object key then failures else failures ++ (label ∷ []))

abbrev pub storage_objects : Video → List (CleanupFailure × Option Text)
storage_objects video =
    (CleanupFailure.raw, video.storage_key_raw)
    ∷ (CleanupFailure.mezzanine, video.storage_key_mezzanine)
    ∷ (CleanupFailure.hls, video.storage_key_hls)
    ∷ (CleanupFailure.demo_preview, video.demo_preview_storage_key)
    ∷ []

unfoldable pub delete_video_storage : ObjectRemover → Video → List CleanupFailure
unfolding abort_raises delete_objects
delete_video_storage store video =
    delete_objects store (storage_objects video) []
      (if abort_raises store video then CleanupFailure.multipart_upload ∷ [] else [])

mark_video_cleanup_failed : User → Video → String → Db → Db
unfolding save_video write_audit
mark_video_cleanup_failed user video reason db =
    write_audit
      (user_audit AuditAction.video_delete_failed user "video" video.id video.team_id
        (reason_field reason Fields.end))
      (save_video video.id
        (λ v. record v {
          raw_delete_requested_at = some (or_else v.raw_delete_requested_at db.now);
          raw_delete_failed_at = some db.now;
          raw_delete_reason = some (codes "user_cleanup");
        })
        db)

-- `session.delete(video)`, with the jobs and the events that go with it.
abbrev remove_video : ℕ → Db → Db
remove_video video_id db = record db {
  videos = filter_where (λ v. not (v.id == video_id)) db.videos;
  jobs = filter_where (λ j. not (j.video_id == video_id)) db.jobs;
  events = filter_where (λ e. not (e.video_id == video_id)) db.events;
}

finish_deletion : User → Video → Db → Db
unfolding release_video_upload_quota_reservation write_audit filter_where
finish_deletion user video db =
    let released =
      release_video_upload_quota_reservation video.team_id video.id "user_deleted_failed_video"
        db in
    remove_video video.id (
      write_audit
        (user_audit AuditAction.video_deleted user "video" video.id video.team_id (
          reason_field "user_deleted_failed_video"
            (Fields.field "quota_released" (Json.flag released.0) Fields.end)))
        released.1)

unfoldable pub settle_deletion : User → Video → List CleanupFailure → Db → Result (Unit {0}) × Db
unfolding finish_deletion mark_video_cleanup_failed
settle_deletion user video [] db = (ok tt, finish_deletion user video db)
settle_deletion user video (_ ∷ _) db =
    (err storage_error, mark_video_cleanup_failed user video "storage_cleanup_failed" db)

unfoldable pub delete_with_store : Option ObjectRemover → User → Db → Video → Result (Unit {0}) × Db
unfolding delete_video_storage settle_deletion mark_video_cleanup_failed
delete_with_store none user db video =
    (err no_store, mark_video_cleanup_failed user video "storage_not_configured" db)
delete_with_store (some store) user db video =
    settle_deletion user video (delete_video_storage store video) db

unfoldable pub delete_video : Option ObjectRemover → User → Db → Video → Result (Unit {0}) × Db
unfolding video_has_storage_cleanup_work delete_with_store settle_deletion
delete_video storage user db video =
    if status_in video.status (VideoStatus.failed ∷ VideoStatus.pending_upload ∷ [])
    then (if video_has_storage_cleanup_work video
        then delete_with_store storage user db video
        else settle_deletion user video [] db)
    else (err invalid_state, db)

unfoldable pub delete_failed_video :
    Bool → Option ObjectRemover → User → ℕ → Db → Result (Unit {0}) × Db
unfolding with_video video_of_coach delete_video
delete_failed_video verified_only storage user video_id db =
    with_video db (delete_video storage user db) (video_of_coach verified_only user video_id db)
