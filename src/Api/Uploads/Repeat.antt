-- ===== src/Api/Uploads/Repeat.antt =====
-- videos.py: a completion that is repeated after it has succeeded, by the same user.
use nextballup.Prelude.{
  ℕ, ◌≡◌, refl, ap, ◌∙◌, sym, subst, Bool, true, false, Option, none, some, inl, inr, Bool-cases,
}
use nextballup.Core.Text.{Text, texts_differ}
use nextballup.Core.Enums.{ProcessingJobStage, VideoStatus, status_eq}
use nextballup.Core.Errors.{AppError}
use nextballup.Db.{Db, User, Video}
use nextballup.Worker.CvStages.{WorkerSettings, pending_job}
use nextballup.Api.Permissions.{require_verified_account}
use nextballup.Api.Result.{ok, err, Result-cases}
use nextballup.Api.Videos.{job_of_stage}
use nextballup.Api.Uploads.{
  CompleteUploadRequest, ObjectStore, UploadReply, UploadCheck, queued_values, accept_upload,
  refuse_upload, settle_upload, complete_pending, handed_over, repeated, complete_video,
  video_of_coach, with_video, complete_upload, check_upload, expected_checksum,
}
use nextballup.Api.Uploads.Accepted.{
  accepted_state, job_of_stage-accepted, queued_video, video_of_coach-accepted, accept_upload_lem,
}

settle_upload-eq-ok :
    (s : WorkerSettings) (user : User) (video : Video) (expected : Option Text) (new_id : ℕ)
    (check : UploadCheck) (db : Db) {r : UploadReply} {after : Db}
    → settle_upload s user video expected new_id check db ≡ (ok r, after)
    → accept_upload s user video expected new_id db ≡ (ok r, after)
unfolding settle_upload refuse_upload
settle_upload-eq-ok s user video expected new_id UploadCheck.accepted db h = h
settle_upload-eq-ok s user video expected new_id (UploadCheck.refused e none) db h =
    absurd (cc (ap (λ p. p.0) h))
settle_upload-eq-ok s user video expected new_id (UploadCheck.refused e (some x)) db h =
    absurd (cc (ap (λ p. p.0) h))

module _ (vo : Bool) (s : WorkerSettings) (storage : Option ObjectStore) (user : User) (vid : ℕ)
    (payload : CompleteUploadRequest) (new_id : ℕ) (db : Db) (video : Video) where
  complete_upload-video :
      video_of_coach vo user vid db ≡ ok video
      → complete_upload vo s storage user vid payload new_id db
        ≡ complete_video s storage user payload new_id db video
  unfolding complete_upload with_video
  complete_upload-video o = rw (o, complete_upload) refl

  complete_video-handed_over :
      handed_over video.status ≡ true
      → complete_video s storage user payload new_id db video
        ≡ (repeated video (job_of_stage video ProcessingJobStage.transcode db), db)
  unfolding complete_video
  complete_video-handed_over h = rw (h, complete_video) refl

  -- A completion that goes through on a video that was not handed over is an accepted upload.
  complete_video-accepted :
      {r : UploadReply} {after : Db}
      → handed_over video.status ≡ false
      → complete_video s storage user payload new_id db video ≡ (ok r, after)
      → accept_upload s user video
          (expected_checksum payload.checksum_sha256 video.checksum_sha256)
          new_id
          db
        ≡ (ok r, after)
  unfolding complete_video complete_pending
  complete_video-accepted h e =
      elim (Bool-cases (status_eq video.status VideoStatus.pending_upload)) [
        | inr n ↦ absurd (cc (ap (λ p. p.0) (rw (h, n, complete_video) at e)))
        | inl p ↦ elim (Bool-cases (texts_differ payload.checksum_sha256 video.checksum_sha256)) [
          | inl d ↦ absurd (cc (ap (λ p. p.0) (rw (h, p, complete_video, d) at e)))
          | inr d ↦
              settle_upload-eq-ok s user video
                (expected_checksum payload.checksum_sha256 video.checksum_sha256) new_id
                (check_upload storage video payload
                  (expected_checksum payload.checksum_sha256 video.checksum_sha256))
                db (rw (h, p, complete_video, d) at e)
        ]
      ]

  -- The answer to a repetition of the upload that was accepted just now.
  repeated-accepted :
      (expected : Option Text) {e : AppError}
      → job_of_stage video ProcessingJobStage.transcode db ≡ err e
      → repeated (queued_video s video expected db) (
          job_of_stage
            (queued_video s video expected db)
            ProcessingJobStage.transcode
            (accepted_state s user video expected new_id db))
        ≡ ok (record { video_id = video.id; status = VideoStatus.queued; job_id = new_id })
  unfolding repeated queued_video queued_values job_of_stage pending_job
  repeated-accepted expected missing =
      ap (repeated (queued_video s video expected db))
        (job_of_stage-accepted s user video expected new_id db missing)

-- The repetition, once the handler has read the video.
complete_upload_found :
    (vo : Bool) (s : WorkerSettings) (storage : Option ObjectStore) (user : User) (vid : ℕ)
    (payload : CompleteUploadRequest) (new_id : ℕ) (after : Db) (found : Video)
    → video_of_coach vo user vid after ≡ ok found
    → handed_over found.status ≡ true
    → complete_upload vo s storage user vid payload new_id after
      ≡ (repeated found (job_of_stage found ProcessingJobStage.transcode after), after)
complete_upload_found vo s storage user vid payload new_id after found o h =
    complete_upload-video vo s storage user vid payload new_id after found o
    ∙ complete_video-handed_over vo s storage user vid payload new_id after found h

-- The check of verified accounts may be another one by then, as long as the account passes it.
video_of_coach-verified :
    (vo vo' : Bool) (user : User) (vid : ℕ) (d : Db) {video : Video}
    → require_verified_account vo' user ≡ ok tt
    → video_of_coach vo user vid d ≡ ok video
    → video_of_coach vo' user vid d ≡ ok video
unfolding video_of_coach
video_of_coach-verified vo vo' user vid d passes o =
    elim (Result-cases (require_verified_account vo user)) [
      | inr (x, p) ↦ absurd (cc (rw (p, video_of_coach) at o))
      | inl (u, p) ↦ rw (passes, video_of_coach) (rw (p, video_of_coach) at o)
    ]

-- A completion that has succeeded can be repeated: the same user gets the same reply and nothing
-- changes, whatever the payload, the settings and the object store are by then, given that the account
-- passes the check of verified accounts as it is set by then.
pub complete_upload_again :
    (vo vo' : Bool) (s s' : WorkerSettings) (storage storage' : Option ObjectStore) (user : User)
    (vid : ℕ) (payload payload' : CompleteUploadRequest) (new_id new_id' : ℕ) (db : Db)
    {r : UploadReply} {after : Db}
    → complete_upload vo s storage user vid payload new_id db ≡ (ok r, after)
    → require_verified_account vo' user ≡ ok tt
    → complete_upload vo' s' storage' user vid payload' new_id' after ≡ (ok r, after)
unfolding complete_upload with_video queued_video queued_values
complete_upload_again vo vo' s s' storage storage' user vid payload payload' new_id new_id' db {r}
      {after} e passes =
    elim (Result-cases (video_of_coach vo user vid db)) [
      | inr (x, o) ↦ absurd (cc (ap (λ p. p.0) (rw (o, complete_upload) at e)))
      | inl (video, o) ↦
          let e' =
            sym (complete_upload-video vo s storage user vid payload new_id db video o) ∙ e in
          elim (Bool-cases (handed_over video.status)) [
            | inl h ↦
                let kept =
                  sym (complete_video-handed_over vo s storage user vid payload new_id db video h)
                  ∙ e' in
                subst (λ d. complete_upload vo' s' storage' user vid payload' new_id' d ≡ (ok r, d))
                  (ap (λ p. p.1) kept)
                  (complete_upload_found vo' s' storage' user vid payload' new_id' db video
                      (video_of_coach-verified vo vo' user vid db passes o) h
                    ∙ ap (λ x. (x, db)) (ap (λ p. p.0) kept))
            | inr n ↦
                let expected = expected_checksum payload.checksum_sha256 video.checksum_sha256 in
                let fresh =
                  accept_upload_lem s user video expected new_id db
                    (complete_video-accepted vo s storage user vid payload new_id db video n e') in
                let missing = fresh.1.0 in
                rw (fresh.1.1.0, fresh.1.1.1)
                  (complete_upload_found vo' s' storage' user vid payload' new_id'
                      (accepted_state s user video expected new_id db)
                      (queued_video s video expected db)
                      (video_of_coach-verified vo vo' user vid
                        (accepted_state s user video expected new_id db) passes
                        (video_of_coach-accepted vo s user vid video expected new_id db o))
                      refl
                    ∙ ap (λ x. (x, accepted_state s user video expected new_id db))
                        (repeated-accepted vo s storage user vid payload new_id db video expected
                          missing))
          ]
    ]
