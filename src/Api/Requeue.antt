-- ===== src/Api/Requeue.antt =====
-- apps/api/src/nextballup_api/routers/videos.py: `requeue_processing`, with which a coach has a failed
-- transcode tried again. An error leaves the database as it was.
pub mod Delivered
use mathlib.Core.Option
use nextballup.Prelude.{
  ℕ, Bool, true, false, not, ◌&&◌, ◌||◌, Option, none, some, List, [], ◌∷◌, ◌==◌, if◌then◌else◌,
  is_some, find_where, update_where,
}
use nextballup.Core.Text.{Text, is_blank}
use nextballup.Core.Enums.{
  ProcessingJobStage, ProcessingJobStatus, VideoStatus, stage_eq, stage_value, status_eq, is_failed,
}
use nextballup.Core.Errors.{ErrorClass, ErrorCode, AuditAction}
use nextballup.Core.Json.{Json, Fields}
use nextballup.Db.{Db, User, Video, ProcessingJob, write_audit}
use nextballup.Worker.Verify.{
  HeadResult, ObjectHead, metadata_checksum_sha256, sizes_differ, checksums_differ,
}
use nextballup.Api.Result.{Result, ok, err, app_error, raise_if, ◌>>=◌, ◌>>◌}
use nextballup.Api.Permissions.{require_verified_account, require_team_coach}
use nextballup.Api.Videos.{
  storage_error, invalid_state, or_raise, video_or_404, job_of_stage, requested_stage, user_audit,
  save_video,
}
use nextballup.Api.Uploads.{ObjectStore}

-- `_assert_raw_object_requeueable` on what the store answers for the key.
requeueable_head : (Text → Option Text) → Video → HeadResult → Result (Unit {0})
unfolding sizes_differ checksums_differ metadata_checksum_sha256
requeueable_head decode video (HeadResult.head_failed _) = err storage_error
requeueable_head decode video HeadResult.head_missing = err invalid_state
requeueable_head decode video (HeadResult.head_found head) =
    raise_if (sizes_differ head.content_length video.file_size_bytes) ErrorClass.conflict_error
      ErrorCode.invalid_video_state
    >> raise_if (checksums_differ video.checksum_sha256 (metadata_checksum_sha256 decode head))
        ErrorClass.conflict_error ErrorCode.invalid_video_state

unfoldable pub assert_raw_object_requeueable : ObjectStore → Video → Result (Unit {0})
unfolding requeueable_head
assert_raw_object_requeueable store video = elim video.storage_key_raw [
  | none ↦ err invalid_state
  | some key ↦
      if is_blank (some key)
        || (is_some video.raw_deleted_at || is_some video.raw_storage_deleted_at)
      then err invalid_state
      else requeueable_head store.decode video (store.head_object key)
]

-- The row of the job as it waits for the dispatch again.
unfoldable pub requeued_values : ProcessingJob → ProcessingJob
requeued_values job = record job {
  status = ProcessingJobStatus.pending;
  progress_percent = 0;
  error_message = none;
  result_metadata = none;
  celery_task_id = none;
  started_at = none;
  completed_at = none;
  heartbeat_at = none;
}

-- The rows that the handler holds are written back by their primary keys.
unfoldable pub requeue_job : User → Video → ProcessingJob → Db → Db
unfolding requeued_values write_audit update_where save_video
requeue_job user video job db =
    let saved = save_video video.id (λ v. record v { status = VideoStatus.queued }) db in
    write_audit
      (user_audit AuditAction.video_processing_requeued user "processing_job" job.id video.team_id (
        Fields.field "video_id" (Json.num video.id)
          (Fields.field "stage" (Json.str (stage_value ProcessingJobStage.transcode)) Fields.end)))
      (record saved { jobs = update_where (λ j. j.id == job.id) requeued_values db.jobs })

-- The checks on the stage and the video's status.
unfoldable pub requeueable : Video → ProcessingJobStage → Result (Unit {0})
requeueable video stage =
    raise_if (not (stage_eq stage ProcessingJobStage.transcode)) ErrorClass.conflict_error
      ErrorCode.invalid_video_state
    >> raise_if (not (status_eq video.status VideoStatus.failed)) ErrorClass.conflict_error
        ErrorCode.invalid_video_state

-- The checks on the job and on the store.
unfoldable pub retryable_job : Option ObjectStore → Video → ProcessingJob → Result ProcessingJob
unfolding assert_raw_object_requeueable
retryable_job storage video job =
    raise_if (not (is_failed job.status)) ErrorClass.conflict_error
      ErrorCode.processing_job_not_requeuable
    >> or_raise storage ErrorClass.service_unavailable_error ErrorCode.storage_not_configured
    >>= λ store. assert_raw_object_requeueable store video >>= λ _. ok job

unfoldable pub requeue_of_video :
    Option ObjectStore → User → ProcessingJobStage → Db → Video → Result (ℕ × Db)
unfolding require_team_coach requeueable job_of_stage retryable_job requeue_job
requeue_of_video storage user stage db video = require_team_coach user video.team_id db >>= λ _.
    requeueable video stage >>= λ _.
    job_of_stage video stage db >>= retryable_job storage video >>= λ job.
    ok (job.id, requeue_job user video job db)

-- The id of the requeued job and the new state.
unfoldable pub requeue_processing :
    Bool → User → ℕ → Text → Option ObjectStore → Db → Result (ℕ × Db)
unfolding requested_stage video_or_404 requeue_of_video
requeue_processing verified_only user video_id stage_text storage db =
    requested_stage verified_only user stage_text >>= λ stage.
    video_or_404 video_id db >>= requeue_of_video storage user stage db
