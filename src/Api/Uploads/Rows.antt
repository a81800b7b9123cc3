-- ===== src/Api/Uploads/Rows.antt =====
-- videos.py: what `complete_upload` does to `processing_jobs`, and the one row for each stage.
use nextballup.Prelude.{
  ℕ, ◌≡◌, Bool, ◌&&◌, Option, none, some, List, [], ◌∷◌, ◌++◌, ◌==◌, inl, inr, Bool-cases,
  find_where,
}
use nextballup.Core.Enums.{ProcessingJobStage, VideoStatus, stage_eq, status_eq}
use nextballup.Core.Text.{Text, texts_differ}
use nextballup.Db.{Db, User, Video, ProcessingJob, write_audit}
use nextballup.Worker.CvStages.{WorkerSettings, pending_job, add_job}
use nextballup.Api.Result.{Result, ok, err, Result-cases}
use nextballup.Api.Videos.{job_of_stage, save_video, or_raise-eq-err}
use nextballup.Api.Uploads.{
  CompleteUploadRequest, ObjectStore, UploadCheck, accept_upload, refuse_upload, settle_upload,
  complete_pending, handed_over, complete_video, video_of_coach, with_video, complete_upload,
  completion_audits, expected_checksum, check_upload,
}

-- A property of the table that holds before, and with the video's transcode job added.
module _ (P : List ProcessingJob → Type 0) (settings : WorkerSettings)
    (storage : Option ObjectStore) (user : User) (payload : CompleteUploadRequest) (new_id : ℕ)
    (db : Db) (same : P db.jobs)
    (more : (video : Video)
      → find_where
          (λ j. j.video_id == video.id && stage_eq j.stage ProcessingJobStage.transcode)
          db.jobs
        ≡ none
      → P (
          db.jobs
          ++ (pending_job new_id video.id video.team_id ProcessingJobStage.transcode db.now
              ∷ []))) where
  accept_upload-jobs :
      (video : Video) (expected : Option Text)
      → P (accept_upload settings user video expected new_id db).1.jobs
  unfolding accept_upload completion_audits write_audit add_job save_video job_of_stage
  accept_upload-jobs video expected =
      elim (Result-cases (job_of_stage video ProcessingJobStage.transcode db)) [
        | inl (j, e) ↦ rw (e, accept_upload) same
        | inr (x, e) ↦ rw (e, accept_upload) (more video (or_raise-eq-err _ _ _ e))
      ]

  settle_upload-jobs :
      (video : Video) (expected : Option Text) (check : UploadCheck)
      → P (settle_upload settings user video expected new_id check db).1.jobs
  unfolding settle_upload refuse_upload write_audit
  settle_upload-jobs video expected UploadCheck.accepted = accept_upload-jobs video expected
  settle_upload-jobs video expected (UploadCheck.refused e none) = same
  settle_upload-jobs video expected (UploadCheck.refused e (some extra)) = same

  complete_video-jobs :
      (video : Video) → P (complete_video settings storage user payload new_id db video).1.jobs
  unfolding complete_video complete_pending
  complete_video-jobs video = elim (Bool-cases (handed_over video.status)) [
    | inl h ↦ rw (h, complete_video) same
    | inr n ↦ elim (Bool-cases (status_eq video.status VideoStatus.pending_upload)) [
      | inr m ↦ rw (n, m, complete_video) same
      | inl p ↦
          let expected = expected_checksum payload.checksum_sha256 video.checksum_sha256 in
          elim (Bool-cases (texts_differ payload.checksum_sha256 video.checksum_sha256)) [
            | inl d ↦ rw (n, p, complete_video, d) same
            | inr d ↦
                rw (n, p, complete_video, d)
                  (settle_upload-jobs video expected (check_upload storage video payload expected))
          ]
    ]
  ]

  with_video-jobs :
      (found : Result Video)
      → P (with_video db (complete_video settings storage user payload new_id db) found).1.jobs
  unfolding with_video
  with_video-jobs (ok video) = complete_video-jobs video
  with_video-jobs (err e) = same

  pub complete_upload-jobs :
      (verified_only : Bool) (video_id : ℕ)
      → P (complete_upload verified_only settings storage user video_id payload new_id db).1.jobs
  unfolding complete_upload
  complete_upload-jobs verified_only video_id =
      with_video-jobs (video_of_coach verified_only user video_id db)
