-- ===== src/Api/Deletion/Storage.antt =====
-- videos.py: a video that was deleted leaves no object in the store, and no row.
use nextballup.Prelude.{
  ℕ, ◌≡◌, refl, ap, subst, Bool, true, false, not, Option, none, some, List, [], ◌∷◌, arith, ◌==◌,
  inl, inr, Bool-cases, if◌then◌else◌, find_where, All, or_false, find_where-filter_where_none,
  All-map,
}
use nextballup.Core.Text.{Text, is_blank}
use nextballup.Core.Enums.{VideoStatus, status_in}
use nextballup.Db.{Db, User, Video}
use nextballup.Api.Result.{ok, Result-cases}
use nextballup.Api.Uploads.{video_of_coach, with_video}
use nextballup.Api.Deletion.{
  ObjectRemover, CleanupFailure, abort_raises, storage_objects, delete_video_storage,
  video_has_storage_cleanup_work, settle_deletion, delete_with_store, delete_video,
  delete_failed_video, finish_deletion,
}
use nextballup.Api.Deletion.Objects.{Gone, delete_objects_clean, delete_objects-Gone}

-- A key of the row has been deleted in the store that there is.
abbrev pub Deleted : Option ObjectRemover → CleanupFailure × Option Text → Type 0
Deleted storage o =
    (key : Text)
    → o.1 ≡ some key
    → is_blank (some key) ≡ false
    → (store : ObjectRemover) × ((storage ≡ some store) × (store.delete_object key ≡ true))

-- The multipart upload with this id was aborted in the store that there is.
abbrev pub Aborted : Option ObjectRemover → Text → Text → Type 0
Aborted storage key upload_id =
    (store : ObjectRemover) × ((storage ≡ some store)
      × (store.abort_multipart key upload_id ≡ true))

-- Nothing of the video is left: its objects are deleted in the store, a multipart upload that the row
-- names together with its raw key was aborted, and neither its row nor a row of its jobs or events is
-- there.
pub record Removed (storage : Option ObjectRemover) (video : Video) (after : Db) : Type 0 where
  pub objects : All (Deleted storage) (storage_objects video)
  pub upload :
      (upload_id key : Text)
      → video.upload_id ≡ some upload_id
      → video.storage_key_raw ≡ some key
      → is_blank (some key) ≡ false
      → Aborted storage key upload_id
  pub row : find_where (λ v. v.id == video.id) after.videos ≡ none
  pub jobs : find_where (λ j. j.video_id == video.id) after.jobs ≡ none
  pub events : find_where (λ e. e.video_id == video.id) after.events ≡ none

finish_deletion-row :
    (user : User) (video : Video) (db : Db)
    → find_where (λ v. v.id == video.id) (finish_deletion user video db).videos ≡ none
unfolding finish_deletion
finish_deletion-row user video db = find_where-filter_where_none (λ v. v.id == video.id) _

finish_deletion-jobs :
    (user : User) (video : Video) (db : Db)
    → find_where (λ j. j.video_id == video.id) (finish_deletion user video db).jobs ≡ none
unfolding finish_deletion
finish_deletion-jobs user video db = find_where-filter_where_none (λ j. j.video_id == video.id) _

finish_deletion-events :
    (user : User) (video : Video) (db : Db)
    → find_where (λ e. e.video_id == video.id) (finish_deletion user video db).events ≡ none
unfolding finish_deletion
finish_deletion-events user video db = find_where-filter_where_none (λ e. e.video_id == video.id) _

-- An abort that is attempted and does not raise was done.
abort-done :
    (store : ObjectRemover) (video : Video) (upload_id key : Text)
    → video.upload_id ≡ some upload_id
    → video.storage_key_raw ≡ some key
    → is_blank (some key) ≡ false
    → abort_raises store video ≡ false
    → store.abort_multipart key upload_id ≡ true
unfolding abort_raises
abort-done store video upload_id key u k full quiet =
    let q = rw (u, k, abort_raises) at quiet in ground (arith, full)

settle_deletion-ok :
    (user : User) (video : Video) (failures : List CleanupFailure) (db : Db) {after : Db}
    → settle_deletion user video failures db ≡ (ok tt, after)
    → (failures ≡ []) × (finish_deletion user video db ≡ after)
unfolding settle_deletion
settle_deletion-ok user video [] db e = (refl, ap (λ p. p.1) e)
settle_deletion-ok user video (f ∷ fs) db e = absurd (cc (ap (λ p. p.0) e))

blank-Deleted :
    (storage : Option ObjectRemover) (label : CleanupFailure) (o : Option Text)
    → not (is_blank o) ≡ false
    → Deleted storage (label, o)
blank-Deleted storage label o blank key same full = absurd (cc (rw same at blank, full))

-- A video that has nothing in the store.
idle-Removed :
    (storage : Option ObjectRemover) (user : User) (video : Video) (db : Db)
    → video_has_storage_cleanup_work video ≡ false
    → Removed storage video (finish_deletion user video db)
unfolding video_has_storage_cleanup_work
idle-Removed storage user video db idle =
    let k1 = or_false _ _ idle in
    let k2 = or_false _ _ k1.1 in
    let k3 = or_false _ _ k2.1 in
    let k4 = or_false _ _ k3.1 in
    record {
      objects = (
        blank-Deleted storage CleanupFailure.raw _ k2.0,
        (
          blank-Deleted storage CleanupFailure.mezzanine _ k3.0,
          (
            blank-Deleted storage CleanupFailure.hls _ k4.0,
            (blank-Deleted storage CleanupFailure.demo_preview _ k4.1, tt),
          ),
        ),
      );
      upload = λ u k has named full.
          let blank : not (is_blank (some k)) ≡ false = rw named at k2.0 in
          absurd (cc (blank, full));
      row = finish_deletion-row user video db;
      jobs = finish_deletion-jobs user video db;
      events = finish_deletion-events user video db;
    }

no_failure :
    (raised : Bool)
    → (if raised then CleanupFailure.multipart_upload ∷ [] else []) ≡ []
    → raised ≡ false
no_failure true e = absurd (cc e)
no_failure false e = refl

-- A video whose objects were all deleted.
cleaned-Removed :
    (store : ObjectRemover) (user : User) (video : Video) (db : Db)
    → delete_video_storage store video ≡ []
    → Removed (some store) video (finish_deletion user video db)
unfolding delete_video_storage
cleaned-Removed store user video db clean = record {
  objects =
      All-map (Gone store) (Deleted (some store))
        (λ o g k same full. (store, (refl, g k same full))) (storage_objects video)
        (delete_objects-Gone store (storage_objects video) [] _ tt clean);
  upload = λ u k has named full. (
    store,
    (
      refl,
      abort-done store video u k has named full (
          no_failure (abort_raises store video)
            (delete_objects_clean store (storage_objects video) [] _ clean)),
    ),
  );
  row = finish_deletion-row user video db;
  jobs = finish_deletion-jobs user video db;
  events = finish_deletion-events user video db;
}

delete_with_store-Removed :
    (storage : Option ObjectRemover) (user : User) (db : Db) (video : Video) {after : Db}
    → delete_with_store storage user db video ≡ (ok tt, after)
    → Removed storage video after
unfolding delete_with_store
delete_with_store-Removed none user db video e = absurd (cc (ap (λ p. p.0) e))
delete_with_store-Removed (some store) user db video e =
    let end = settle_deletion-ok user video (delete_video_storage store video) db e in
    subst (Removed (some store) video) end.1 (cleaned-Removed store user video db end.0)

delete_video-Removed :
    (storage : Option ObjectRemover) (user : User) (db : Db) (video : Video) {after : Db}
    → delete_video storage user db video ≡ (ok tt, after)
    → Removed storage video after
unfolding delete_video delete_with_store
delete_video-Removed storage user db video {after} e =
    elim (Bool-cases
      (status_in video.status (VideoStatus.failed ∷ VideoStatus.pending_upload ∷ []))) [
        | inr f ↦ absurd (cc (ap (λ p. p.0) (rw f at e)))
        | inl t ↦ elim (Bool-cases (video_has_storage_cleanup_work video)) [
          | inr idle ↦
              let end = settle_deletion-ok user video [] db (rw (t, idle) at e) in
              subst (Removed storage video) end.1 (idle-Removed storage user video db idle)
          | inl work ↦ delete_with_store-Removed storage user db video (rw (t, work) at e)
        ]
      ]

-- A deletion that succeeds found the video and leaves nothing behind: every object of the video that the
-- row names was deleted in the store, a multipart upload whose id and raw key the row both names was
-- aborted, and the rows of the video, its jobs and its events are gone. An upload id without a raw key is
-- dropped with the row, with no abort.
pub delete_failed_video-Removed :
    (verified_only : Bool) (storage : Option ObjectRemover) (user : User) (video_id : ℕ) (db : Db)
    {after : Db}
    → delete_failed_video verified_only storage user video_id db ≡ (ok tt, after)
    → (video : Video) × ((video_of_coach verified_only user video_id db ≡ ok video)
        × Removed storage video after)
unfolding delete_failed_video with_video
delete_failed_video-Removed verified_only storage user video_id db {after} e =
    elim (Result-cases (video_of_coach verified_only user video_id db)) [
      | inr (x, f) ↦ absurd (cc (ap (λ p. p.0) (rw (f, with_video) at e)))
      | inl (video, f) ↦
          (video, (f, delete_video-Removed storage user db video (rw (f, with_video) at e)))
    ]
