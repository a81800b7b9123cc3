-- ===== src/Api/Cancel.antt =====
-- apps/api/src/nextballup_api/routers/videos.py: `cancel_processing`. The row locks that the
-- handler takes make it one step; an error leaves the database as it was, so it carries no state.
pub mod Revoked
use Prim.Native.String.{String}
use mathlib.Core.Option
use nextballup.Prelude.{
  ℕ, Bool, true, false, not, ◌&&◌, Option, none, some, List, [], ◌∷◌, ◌++◌, ◌==◌, if◌then◌else◌,
  is_some, find_where, update_where,
}
use nextballup.Core.Text.{Text, codes, text_eq}
use nextballup.Core.Enums.{
  ProcessingJobStage, ProcessingJobStatus, VideoStatus, stage_eq, stage_value, status_in,
  is_running,
}
use nextballup.Core.Errors.{ErrorClass, ErrorCode, AuditAction, code_value}
use nextballup.Core.Json.{Json, Fields, dict_of, update_fields}
use nextballup.Db.{Db, User, Video, ProcessingJob, write_audit}
use nextballup.Api.Result.{Result, ok, err, app_error, raise_if, ◌>>=◌, ◌>>◌}
use nextballup.Api.Videos.{job_of_stage, requested_stage, video_or_404}
use nextballup.Api.Permissions.{require_verified_account, require_team_coach}

cancel_metadata : User → ProcessingJob → ℕ → Fields
unfolding update_fields
cancel_metadata user job now = update_fields (dict_of job.result_metadata) (
    Fields.field "cancelled_at" (Json.num now) (
      Fields.field "cancelled_by_user_id" (Json.num user.id) (
        Fields.field "cancel_reason" (Json.str (codes "user_cancelled_processing")) (
          Fields.field "previous_progress_percent" (Json.num job.progress_percent) (
            Fields.field "previous_celery_task_present" (Json.flag (is_some job.celery_task_id))
              Fields.end)))))

unfoldable pub cancelled_values : User → ℕ → ProcessingJob → ProcessingJob
unfolding cancel_metadata
cancelled_values user now job = record job {
  status = ProcessingJobStatus.failed;
  completed_at = some now;
  error_message = some (
      codes "["
      ++ (code_value ErrorCode.processing_cancelled
          ++ codes "] Processing cancelled by coach/admin"));
  result_metadata = some (cancel_metadata user job now);
}

-- The rows that the handler holds are written back by their primary keys.
unfoldable pub cancel_job : User → Video → ProcessingJob → Db → Db
unfolding cancelled_values write_audit update_where
cancel_job user video job db =
    write_audit
      (record {
        action = AuditAction.video_processing_cancelled;
        actor_user_id = some user.id;
        resource_type = "processing_job";
        resource_id = some job.id;
        team_id = some video.team_id;
        extra = Fields.field "video_id" (Json.num video.id) (
            Fields.field "stage" (Json.str (stage_value ProcessingJobStage.transcode)) (
              Fields.field "previous_progress_percent" (Json.num job.progress_percent) (
                Fields.field "had_celery_task_id" (Json.flag (is_some job.celery_task_id))
                  Fields.end)));
      })
      (record db {
        jobs = update_where (λ j. j.id == job.id) (cancelled_values user db.now) db.jobs;
        videos =
            update_where (λ v. v.id == video.id) (λ v. record v { status = VideoStatus.failed })
              db.videos;
      })

unfoldable pub cancel_running : User → Video → Db → ProcessingJob → Result (ℕ × Db)
unfolding cancel_job
cancel_running user video db job = elim (is_running job.status) [
  | true ↦ ok (job.id, cancel_job user video job db)
  | false ↦ err (app_error ErrorClass.conflict_error ErrorCode.processing_job_not_requeuable)
]

-- The checks on the stage and the video's status.
unfoldable pub cancellable : Video → ProcessingJobStage → Result (Unit {0})
cancellable video stage =
    raise_if (not (stage_eq stage ProcessingJobStage.transcode)) ErrorClass.conflict_error
      ErrorCode.invalid_video_state
    >> raise_if (not (status_in video.status (VideoStatus.processing ∷ VideoStatus.queued ∷ [])))
        ErrorClass.conflict_error ErrorCode.invalid_video_state

unfoldable pub cancel_of_video : User → ProcessingJobStage → Db → Video → Result (ℕ × Db)
unfolding require_team_coach cancellable job_of_stage cancel_running
cancel_of_video user stage db video = require_team_coach user video.team_id db >>= λ _.
    cancellable video stage >>= λ _. job_of_stage video stage db >>= cancel_running user video db

-- The id of the cancelled job and the new state.
unfoldable pub cancel_processing : Bool → User → ℕ → Text → Db → Result (ℕ × Db)
unfolding requested_stage video_or_404 cancel_of_video
cancel_processing verified_only user video_id stage_text db =
    requested_stage verified_only user stage_text >>= λ stage.
    video_or_404 video_id db >>= cancel_of_video user stage db
