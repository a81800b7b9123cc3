-- ===== src/Api/Tests/Videos.antt =====
-- The theorems on the video handlers, at small databases.
use nextballup.Prelude.{
  ◌+◌, ◌≡◌, refl, true, none, some, [], ◌∷◌, arith, ◌==◌, any_where, find_where,
}
use nextballup.Core.Text.{codes}
use nextballup.Core.Enums.{VideoStatus}
use nextballup.Db.{Db, Video}
use nextballup.Worker.Verify.{HeadResult}
use nextballup.Worker.Tests.{film, store, settings}
use nextballup.Worker.Dispatch.{dispatch_pending_jobs, grace}
use nextballup.Api.Result.{ok, err}
use nextballup.Api.Tests.{coach, coaching}
use nextballup.Api.Deletion.{ObjectRemover, delete_failed_video}
use nextballup.Api.Deletion.Storage.{Removed, delete_failed_video-Removed}
use nextballup.Api.Uploads.{video_of_coach, CompleteUploadRequest, ObjectStore, complete_upload}
use nextballup.Api.Uploads.Repeat.{complete_upload_again}
use nextballup.Api.Requeue.{requeue_processing}
use nextballup.Api.Requeue.Delivered.{requeue_processing_delivered}

-- Video 4 awaits its single upload of 100 bytes.
abbrev awaited : Video
awaited = record film { id = 4; status = VideoStatus.pending_upload }

-- Video 2, of which the transcode has failed.
abbrev lost : Video
lost = record film { id = 2; status = VideoStatus.failed }

abbrev desk : Db
desk = record store { memberships = coaching ∷ []; videos = film ∷ lost ∷ awaited ∷ [] }

-- A store that has every object, with 100 bytes.
abbrev objects : ObjectStore
objects = record {
  complete_multipart = λ _ _ _. true;
  head_object = λ _. HeadResult.head_found (record {
    content_length = some 100;
    user_sha256 = none;
    checksum_sha256 = none;
    etag = none;
  });
  decode = λ _. none;
}

abbrev request : CompleteUploadRequest
request = record { checksum_sha256 = none; parts = [] }

abbrev completed : Db
completed = (complete_upload true settings (some objects) coach 4 request 40 desk).1

complete_upload_again_example :
    complete_upload true settings none coach 4 request 41 completed
    ≡ (ok (record { video_id = 4; status = VideoStatus.queued; job_id = 40 }), completed)
unfolding complete_upload find_where
complete_upload_again_example =
    complete_upload_again true true settings settings (some objects) none coach 4 request request 40
      41 desk refl refl

abbrev retried : Db
retried = elim (requeue_processing true coach 2 (codes "transcode") (some objects) desk) [
  | ok (_, after) ↦ after
  | err _ ↦ desk
]

requeue_processing_delivered_example :
    any_where
      (λ n. n == 6)
      (dispatch_pending_jobs
        (λ n _. some (n + 1))
        (λ _ d. d)
        10
        10
        (record retried { now = 200 })).0
    ≡ true
unfolding requeue_processing find_where grace
requeue_processing_delivered_example =
    requeue_processing_delivered true coach 2 (codes "transcode") (some objects) 10 10 200
      (λ n _. some (n + 1)) desk refl (λ _ _. refl) (ground arith) (ground arith)

-- A store that removes everything.
abbrev remover : ObjectRemover
remover = record { abort_multipart = λ _ _. true; delete_object = λ _. true }

abbrev cleared : Db
cleared = (delete_failed_video true (some remover) coach 2 desk).1

delete_failed_video-Removed_example :
    (video : Video) × ((video_of_coach true coach 2 desk ≡ ok video)
      × Removed (some remover) video cleared)
unfolding delete_failed_video find_where
delete_failed_video-Removed_example =
    delete_failed_video-Removed true (some remover) coach 2 desk refl
