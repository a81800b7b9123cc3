-- ===== src/Api/Uploads.antt =====
-- apps/api/src/nextballup_api/routers/videos.py: `complete_upload` with `_verify_uploaded_object`. The
-- store's answers are arguments; its deletions are best effort and leave no trace in the database.
-- A failure is recorded by `_record_upload_failure`, which commits its audit entry, so an error
-- comes with the state that it leaves. Of the `extra` of such an entry only `reason` is kept.
mod Check
pub mod Repeat
pub mod Rows
pub mod Accepted
unfoldable pub use Check.*
use Prim.Native.String.{String}
use mathlib.Core.Option
use nextballup.Prelude.{
  ℕ, ◌+◌, ◌*◌, Bool, true, false, not, ◌&&◌, Option, none, some, List, [], ◌∷◌, ◌++◌, ◌==◌,
  if◌then◌else◌, is_some, is_none, find_where, any_where, or_else,
}
use nextballup.Core.Text.{Text, codes, text_eq, texts_differ, is_blank}
use nextballup.Core.Enums.{
  ProcessingJobStage, VideoStatus, stage_eq, stage_value, status_eq, status_in,
}
use nextballup.Core.Errors.{AppError, ErrorClass, ErrorCode, AuditAction}
use nextballup.Core.Json.{Json, Fields, num_or_null, str_or_null}
use nextballup.Db.{Db, User, Video, ProcessingJob, write_audit}
use nextballup.Worker.Verify.{HeadResult, ObjectHead, metadata_checksum_sha256, sizes_differ}
use nextballup.Worker.CvStages.{WorkerSettings, pending_job, add_job}
use nextballup.Api.Result.{Result, ok, err, app_error, raise_if, ◌>>=◌, ◌>>◌}
use nextballup.Api.Permissions.{require_verified_account, require_team_coach}
use nextballup.Api.Billing.{resolve_team_plan, TeamPlanContext}
use nextballup.Api.Videos.{
  storage_error, invalid_state, video_or_404, job_of_stage, user_audit, save_video,
}

pub record UploadReply : Type 0 where
  pub video_id : ℕ
  pub status : VideoStatus
  pub job_id : ℕ

-- `_raw_retention_expires_at`, where 0 days of the plan count as none.
abbrev nonzero_or : Option ℕ → ℕ → ℕ
nonzero_or none d = d
nonzero_or (some n) d = if n == 0 then d else n

abbrev plan_days : Option TeamPlanContext → Option ℕ
plan_days none = none
plan_days (some ctx) = ctx.raw_video_retention_days

raw_retention_expires_at : WorkerSettings → Option ℕ → ℕ → ℕ
raw_retention_expires_at settings plan_retention_days now =
    now + nonzero_or plan_retention_days settings.raw_video_retention_days * 86400

queued_values : Option Text → ℕ → Video → Video
queued_values expected expires v = record v {
  status = VideoStatus.queued;
  checksum_sha256 = expected;
  upload_id = none;
  upload_expires_at = none;
  raw_retention_expires_at = some (or_else v.raw_retention_expires_at expires);
}

-- The two audit entries of the last transaction, the later one in front.
completion_audits : User → Video → ProcessingJob → Option Text → Db → Db
unfolding write_audit
completion_audits user video job expected db =
    write_audit
      (user_audit AuditAction.video_processing_queued user "processing_job" job.id video.team_id (
        Fields.field "stage" (Json.str (stage_value job.stage))
          (Fields.field "video_id" (Json.num video.id) Fields.end)))
      (write_audit
        (user_audit AuditAction.video_upload_completed user "video" video.id video.team_id
          (Fields.field "checksum_sha256" (str_or_null expected) Fields.end))
        db)

-- The row that the unique key (video_id, stage) of `processing_jobs` would clash with: a check of the
-- database, on which the flush raises, and none of the handler.
abbrev transcode_key : Video → Db → Result ProcessingJob
transcode_key video db = job_of_stage video ProcessingJobStage.transcode db

-- The last transaction.
unfoldable pub accept_upload :
    WorkerSettings → User → Video → Option Text → ℕ → Db → Result UploadReply × Db
unfolding queued_values raw_retention_expires_at completion_audits save_video add_job pending_job
    resolve_team_plan job_of_stage
accept_upload settings user video expected new_id db =
    let expires =
      raw_retention_expires_at settings (plan_days (resolve_team_plan video.team_id db)) db.now in
    let job = pending_job new_id video.id video.team_id ProcessingJobStage.transcode db.now in
    elim (transcode_key video db) [
      | ok _ ↦ (err (app_error ErrorClass.runtime_error ErrorCode.internal_error), db)
      | err _ ↦ (
        ok (record { video_id = video.id; status = VideoStatus.queued; job_id = new_id }),
        completion_audits user video job expected
            (add_job job (save_video video.id (queued_values expected expires) db)),
      )
    ]

-- A refusal, with its audit entry where one is recorded.
refuse_upload : User → Video → AppError → Option Fields → Db → Result UploadReply × Db
unfolding write_audit
refuse_upload user video e none db = (err e, db)
refuse_upload user video e (some extra) db = (
  err e,
  write_audit (user_audit AuditAction.video_upload_failed user "video" video.id video.team_id extra)
      db,
)

settle_upload :
    WorkerSettings → User → Video → Option Text → ℕ → UploadCheck → Db → Result UploadReply × Db
unfolding accept_upload refuse_upload
settle_upload settings user video expected new_id UploadCheck.accepted db =
    accept_upload settings user video expected new_id db
settle_upload settings user video expected new_id (UploadCheck.refused e extra) db =
    refuse_upload user video e extra db

-- A video that awaits its upload.
unfoldable pub complete_pending :
    WorkerSettings
    → Option ObjectStore
    → User
    → CompleteUploadRequest
    → ℕ
    → Db
    → Video
    → Result UploadReply × Db
unfolding settle_upload check_upload expected_checksum texts_differ
complete_pending settings storage user payload new_id db video =
    let expected = expected_checksum payload.checksum_sha256 video.checksum_sha256 in
    if texts_differ payload.checksum_sha256 video.checksum_sha256
    then (err (app_error ErrorClass.validation_failed_error ErrorCode.validation_failed), db)
    else settle_upload settings user video expected new_id
        (check_upload storage video payload expected) db

abbrev handed_over : VideoStatus → Bool
handed_over VideoStatus.queued = true
handed_over VideoStatus.processing = true
handed_over VideoStatus.processed = true
handed_over _ = false

-- The answer to a repeated completion: the job that is there.
repeated : Video → Result ProcessingJob → Result UploadReply
repeated video (ok job) =
    ok (record { video_id = video.id; status = video.status; job_id = job.id })
repeated video (err _) = err (app_error ErrorClass.app_error ErrorCode.invalid_video_state)

unfoldable pub complete_video :
    WorkerSettings
    → Option ObjectStore
    → User
    → CompleteUploadRequest
    → ℕ
    → Db
    → Video
    → Result UploadReply × Db
unfolding repeated job_of_stage complete_pending
complete_video settings storage user payload new_id db video = elim (handed_over video.status) [
  | true ↦ (repeated video (job_of_stage video ProcessingJobStage.transcode db), db)
  | false ↦ elim (status_eq video.status VideoStatus.pending_upload) [
    | true ↦ complete_pending settings storage user payload new_id db video
    | false ↦ (err invalid_state, db)
  ]
]

-- The checks on the caller, which give the video.
unfoldable pub video_of_coach : Bool → User → ℕ → Db → Result Video
unfolding require_verified_account video_or_404 require_team_coach
video_of_coach verified_only user video_id db =
    require_verified_account verified_only user >> video_or_404 video_id db >>= λ video.
    require_team_coach user video.team_id db >>= λ _. ok video

unfoldable pub with_video {ℓ} :
    {A : Type ℓ} → Db → (Video → Result A × Db) → Result Video → Result A × Db
with_video db handle (ok video) = handle video
with_video db handle (err e) = (err e, db)

unfoldable pub complete_upload :
    Bool
    → WorkerSettings
    → Option ObjectStore
    → User
    → ℕ
    → CompleteUploadRequest
    → ℕ
    → Db
    → Result UploadReply × Db
unfolding with_video video_of_coach complete_video
complete_upload verified_only settings storage user video_id payload new_id db =
    with_video db (complete_video settings storage user payload new_id db)
      (video_of_coach verified_only user video_id db)
