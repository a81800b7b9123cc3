-- ===== src/Worker/Transcode/Finish.antt =====
-- transcode.py: the transactions of a transcode run after its claim, and the last one.
use nextballup.Prelude.{ℕ, zero, suc, ◌+◌, true, false, Option, none, some, [], ◌∷◌, ◌⊎◌}
use nextballup.Core.Text.{Text}
use nextballup.Core.Enums.{VideoStatus, ProcessingJobStage, stage_value}
use nextballup.Core.Errors.{ErrorCode, AuditAction}
use nextballup.Core.Json.{Json, Fields, num_or_null}
use nextballup.Db.{Db, Video, ProcessingJob, write_audit}
use nextballup.Worker.Errors.{ProcessingFailure}
use nextballup.Worker.Jobs.{complete_job, touch_heartbeat, set_video_status}
use nextballup.Worker.CvStages.{
  WorkerSettings, StageStatus, StageResult, skipped_result, uploader_of, origin_fields, job_audit,
  queue_next_stage_if_enabled,
}
use nextballup.Worker.Verify.{HeadResult}
use nextballup.Worker.Transcode.Outputs.{BrowserMezzanineArtifact, load_video}

-- What the run meets outside the database; no storage is configured without a `head_object`.
pub record Outside : Type 0 where
  pub head_object : Option (Text → HeadResult)
  pub decode : Text → Option Text
  pub mezzanine : Video → ProcessingFailure ⊎ BrowserMezzanineArtifact
  pub ticks : ℕ
  pub elsewhere : ℕ → Db → Db

-- The heartbeats of `_await_with_heartbeat`, each a commit.
unfoldable pub beat : ℕ → (ℕ → Db → Db) → ℕ → Option ℕ → Db → Db
unfolding touch_heartbeat
beat zero elsewhere job_id task db = db
beat (suc n) elsewhere job_id task db =
    beat n elsewhere job_id task (elsewhere (7 + n) (touch_heartbeat job_id (some 50) task db))

-- 2. below the claim: the video starts, in one transaction with the audit.
unfoldable pub transcode_started : ProcessingJob → Option ℕ → Db → Db
unfolding set_video_status write_audit uploader_of
transcode_started claimed celery_task_id db =
    write_audit
      (job_audit AuditAction.video_processing_started claimed (
        Fields.field "video_id" (Json.num claimed.video_id) (
          Fields.field "stage" (Json.str (stage_value claimed.stage)) (
            Fields.field "celery_task_id" (num_or_null celery_task_id)
              (origin_fields (uploader_of claimed.video_id db) Fields.end)))))
      (set_video_status claimed.video_id VideoStatus.processing
        (VideoStatus.queued ∷ VideoStatus.processing ∷ []) db).1

output_fields : BrowserMezzanineArtifact → Fields → Fields
output_fields artifact rest = Fields.field "transcode_mode" (Json.str artifact.transcoder) (
    Fields.field "metadata_stripped" (Json.flag true) (
      Fields.field "output_sha256" (Json.str artifact.output_sha256)
        (Fields.field "output_size_bytes" (Json.num artifact.output_size_bytes) rest)))

unfoldable pub transcode_metadata : Fields → Fields → BrowserMezzanineArtifact → Fields
unfolding output_fields
transcode_metadata verification outputs artifact =
    Fields.field "verification" (Json.obj verification)
      (Fields.field "outputs" (Json.obj outputs) (output_fields artifact Fields.end))

-- 4. below the completion, in the same transaction: the video and the job of the next stage.
unfoldable pub completed_transcode :
    WorkerSettings
    → ProcessingJob
    → Option ℕ
    → Fields
    → BrowserMezzanineArtifact
    → ℕ
    → Option ProcessingJob × Db
    → StageResult × Db
unfolding set_video_status write_audit load_video queue_next_stage_if_enabled
completed_transcode settings claimed origin verification artifact new_id (none, db) =
    (skipped_result claimed.id (some ErrorCode.processing_cancelled), db)
completed_transcode settings claimed origin verification artifact new_id (some _, db) =
    let audited =
      write_audit
        (job_audit AuditAction.video_processing_completed claimed (
          Fields.field "video_id" (Json.num claimed.video_id) (
            Fields.field "stage" (Json.str (stage_value claimed.stage)) (
              Fields.field "verification" (Json.obj verification) (
                Fields.field "output_sha256" (Json.str artifact.output_sha256)
                  (origin_fields origin Fields.end))))))
        (set_video_status claimed.video_id VideoStatus.processed (VideoStatus.processing ∷ [])
          db).1 in
    (
      record {
        job_id = claimed.id;
        status = StageStatus.completed;
        retryable = false;
        error_code = none;
      },
      elim (load_video claimed.video_id audited) [
        | none ↦ audited
        | some video ↦
            (queue_next_stage_if_enabled video ProcessingJobStage.transcode settings new_id
              audited).1
      ],
    )

-- 4. The last transaction; `origin` is the uploader when the run began.
unfoldable pub finish_transcode :
    WorkerSettings
    → ProcessingJob
    → Option ℕ
    → Option ℕ
    → Fields
    → Fields
    → BrowserMezzanineArtifact
    → ℕ
    → Db
    → StageResult × Db
unfolding completed_transcode complete_job transcode_metadata
finish_transcode settings claimed task origin verification outputs artifact new_id db =
    completed_transcode settings claimed origin verification artifact new_id
      (complete_job claimed.id (some (transcode_metadata verification outputs artifact)) task db)

unfoldable pub materialized_audit :
    ProcessingJob → Option ℕ → Fields → BrowserMezzanineArtifact → Db → Db
unfolding write_audit output_fields
materialized_audit claimed origin outputs artifact db =
    write_audit
      (record {
        action = AuditAction.video_output_materialized;
        actor_user_id = none;
        resource_type = "video";
        resource_id = some claimed.video_id;
        team_id = some claimed.team_id;
        extra = Fields.field "stage" (Json.str (stage_value claimed.stage)) (
            Fields.field "outputs" (Json.obj outputs)
              (output_fields artifact (origin_fields origin Fields.end)));
      })
      db
