-- ===== src/Api/Initiate.antt =====
-- videos.py: `initiate_upload`. The ids of the new video and of a billing account that may be made, and the
-- client of the store are arguments; a presigning that answers None is a StorageFailureError.
-- An error that is raised rolls the open transaction back, so it comes with the state before it.
mod Payload
mod Consent
pub mod Within
pub mod Admit
use nextballup.Api.Initiate.Admit.{
  UploadSettings, UploadAnswers, CreateUploadResponse, Admission, admit_upload, deny_quota,
}
unfoldable pub use Payload.*
unfoldable pub use Consent.*
use Prim.Native.String.{String}
use mathlib.Core.Option
use nextballup.Prelude.{
  ℕ, ◌+◌, Bool, true, false, not, ◌&&◌, ◌||◌, Option, none, some, List, [], ◌∷◌, ◌==◌,
  if◌then◌else◌, find_where,
}
use nextballup.Prelude.Int.{ℤ, pos}
use nextballup.Core.Text.{Text, codes}
use nextballup.Core.Enums.{VideoStatus}
use nextballup.Core.Errors.{AppError, ErrorClass, ErrorCode, AuditAction}
use nextballup.Core.Json.{Json, Fields, num_or_null, str_or_null}
use nextballup.Db.{Db, User, Game, Team, Video, TeamPrivacyConsent, AuditLog, write_audit}
use nextballup.Api.Result.{Result, ok, err, app_error, raise_if, ◌>>=◌, ◌>>◌}
use nextballup.Api.RateLimit.{RateLimiter, enforce_rate_limit}
use nextballup.Api.Permissions.{require_verified_account, require_team_coach}
use nextballup.Api.Billing.{
  QuotaCheck, QuotaKey, check_video_upload_quota, check_video_storage_quota, resolve_team_plan,
  record_usage, upload_key,
}
use nextballup.Api.Storage.{
  UploadMethod, PresignedUpload, S3Client, storage_key_for_video, presign_upload,
}
use nextballup.Api.Videos.{storage_error, or_raise, user_audit}

unfoldable pub storage_key_of : CreateUploadRequest → Admission → UploadAnswers → Text
unfolding storage_key_for_video
storage_key_of payload admission outside =
    storage_key_for_video (outside.uuid_text admission.game.team_id)
      (outside.uuid_text outside.video_id) payload.filename

unfoldable pub new_video :
    User → CreateUploadRequest → Admission → UploadAnswers → PresignedUpload → ℕ → Video
new_video user payload admission outside presigned expires_at = record {
  id = outside.video_id;
  game_id = admission.game.id;
  team_id = admission.game.team_id;
  uploaded_by = some user.id;
  privacy_consent_id = Option.map (λ c. c.id) admission.privacy_consent;
  filename = payload.filename;
  content_type = payload.content_type;
  storage_key_raw = some (storage_key_of payload admission outside);
  storage_key_mezzanine = none;
  storage_key_hls = none;
  status = VideoStatus.pending_upload;
  file_size_bytes = some payload.file_size_bytes;
  duration_seconds = none;
  width = none;
  height = none;
  fps = none;
  codec = none;
  checksum_sha256 = payload.checksum_sha256;
  storage_etag = none;
  storage_output_sha256 = none;
  upload_id = presigned.upload_id;
  upload_expires_at = some expires_at;
  raw_retention_expires_at = none;
  raw_delete_requested_at = none;
  raw_delete_failed_at = none;
  raw_storage_deleted_at = none;
  raw_deleted_at = none;
  raw_delete_reason = none;
  demo_preview_storage_key = none;
}

abbrev pub method_value : UploadMethod → Text
method_value UploadMethod.put = codes "PUT"
method_value UploadMethod.multipart = codes "MULTIPART"

-- The usage events of a new video, on the account that the team's plan gives.
unfoldable pub meter_upload : ℕ → ℕ → ℕ → Db → Db
unfolding resolve_team_plan record_usage
meter_upload team_id video_id size db = elim (resolve_team_plan team_id db) [
  | none ↦ db
  | some ctx ↦
      record_usage ctx.account_id "video.storage.bytes_reserved" (pos size) (some team_id)
        (some video_id) none
        (record_usage ctx.account_id upload_key (pos 1) (some team_id) (some video_id) none db)
]

abbrev pub initiated_extra :
    CreateUploadRequest → Admission → PresignedUpload → QuotaCheck → QuotaCheck → Fields
initiated_extra payload admission presigned quota storage_quota =
    Fields.field "game_id" (Json.num admission.game.id) (
      Fields.field "filename" (Json.str payload.filename) (
        Fields.field "file_size_bytes" (Json.num payload.file_size_bytes) (
          Fields.field "content_type" (Json.str payload.content_type) (
            Fields.field "checksum_sha256" (str_or_null payload.checksum_sha256) (
              Fields.field "privacy_consent_id"
                (num_or_null (Option.map (λ c. c.id) admission.privacy_consent))
                (Fields.field "upload_method" (Json.str (method_value presigned.method)) (
                  Fields.field "quota_plan_code" (str_or_null quota.plan_code) (
                    Fields.field "quota_used_after" (Json.num (quota.used + 1)) (
                      Fields.field "storage_quota_used_after"
                        (Json.num (storage_quota.used + payload.file_size_bytes))
                        Fields.end)))))))))

abbrev pub initiated_audit :
    User
    → CreateUploadRequest
    → Admission
    → UploadAnswers
    → PresignedUpload
    → QuotaCheck
    → QuotaCheck
    → AuditLog
initiated_audit user payload admission outside presigned quota storage_quota =
    user_audit AuditAction.video_upload_initiated user "video" outside.video_id
      admission.game.team_id (initiated_extra payload admission presigned quota storage_quota)

-- The row of the video, its audit entry and its usage events. The newest row of a table stands first.
unfoldable pub insert_upload :
    User
    → CreateUploadRequest
    → Admission
    → UploadAnswers
    → PresignedUpload
    → QuotaCheck
    → QuotaCheck
    → ℕ
    → Db
    → Db
unfolding new_video write_audit meter_upload
insert_upload user payload admission outside presigned quota storage_quota expires_at db =
    meter_upload admission.game.team_id outside.video_id payload.file_size_bytes (
      write_audit (initiated_audit user payload admission outside presigned quota storage_quota)
        (record db {
          videos = new_video user payload admission outside presigned expires_at ∷ db.videos;
        }))

-- `_record_upload_failure` after a presign that failed, on the state before the request.
unfoldable pub presign_failed : User → CreateUploadRequest → Admission → UploadAnswers → Db → Db
unfolding write_audit
presign_failed user payload admission outside db =
    write_audit
      (user_audit AuditAction.video_upload_failed user "video" outside.video_id
        admission.game.team_id
        (Fields.field "reason" (Json.str (codes "storage_presign_failed")) (
          Fields.field "game_id" (Json.num admission.game.id) (
            Fields.field "filename" (Json.str payload.filename) (
              Fields.field "file_size_bytes" (Json.num payload.file_size_bytes)
                (Fields.field "content_type" (Json.str payload.content_type) Fields.end))))))
      db

-- `storage_presign_upload` for the new video.
unfoldable pub presign_video :
    UploadSettings
    → CreateUploadRequest
    → Admission
    → UploadAnswers
    → S3Client
    → Option PresignedUpload
unfolding presign_upload storage_key_of
presign_video settings payload admission outside client =
    presign_upload settings.storage client outside.base64 outside.ceil_quotient
      (storage_key_of payload admission outside) payload.content_type payload.file_size_bytes
      payload.checksum_sha256

-- From the presigning on: `db` is the state that the request found, `metered` that of its transaction.
unfoldable pub start_upload :
    UploadSettings
    → User
    → CreateUploadRequest
    → Admission
    → UploadAnswers
    → QuotaCheck
    → QuotaCheck
    → Db
    → Db
    → Result CreateUploadResponse × Db
unfolding insert_upload presign_failed presign_video
start_upload settings user payload admission outside quota storage_quota metered db =
    elim outside.storage [
      | none ↦ (
        err (app_error ErrorClass.service_unavailable_error ErrorCode.storage_not_configured),
        db,
      )
      | some client ↦ elim (presign_video settings payload admission outside client) [
        | none ↦ (err storage_error, presign_failed user payload admission outside db)
        | some presigned ↦
            let expires_at = metered.now + settings.upload_url_expires_seconds in
            (
              ok (record { id = outside.video_id; presigned = presigned; expires_at = expires_at }),
              insert_upload user payload admission outside presigned quota storage_quota expires_at
                  metered,
            )
      ]
    ]

unfoldable pub after_storage_check :
    UploadSettings
    → User
    → CreateUploadRequest
    → Admission
    → UploadAnswers
    → QuotaCheck
    → Db
    → Result (QuotaCheck × Db)
    → Result CreateUploadResponse × Db
unfolding start_upload deny_quota
after_storage_check settings user payload admission outside quota db (err e) = (err e, db)
after_storage_check settings user payload admission outside quota db (ok (storage_quota, metered)) =
    if storage_quota.allowed
    then start_upload settings user payload admission outside quota storage_quota metered db
    else deny_quota user admission.game.team_id storage_quota (some payload.file_size_bytes) metered

unfoldable pub after_upload_check :
    UploadSettings
    → User
    → CreateUploadRequest
    → Admission
    → UploadAnswers
    → Db
    → Result (QuotaCheck × Db)
    → Result CreateUploadResponse × Db
unfolding after_storage_check deny_quota check_video_storage_quota
after_upload_check settings user payload admission outside db (err e) = (err e, db)
after_upload_check settings user payload admission outside db (ok (quota, billed)) =
    if quota.allowed
    then after_storage_check settings user payload admission outside quota db (
        check_video_storage_quota admission.game.team_id user.id settings.billing_default_plan_code
          outside.account_id payload.file_size_bytes billed)
    else deny_quota user admission.game.team_id quota none billed

unfoldable pub after_admission :
    UploadSettings
    → User
    → CreateUploadRequest
    → UploadAnswers
    → Db
    → Result Admission
    → Result CreateUploadResponse × Db
unfolding after_upload_check check_video_upload_quota
after_admission settings user payload outside db (err e) = (err e, db)
after_admission settings user payload outside db (ok admission) =
    after_upload_check settings user payload admission outside db (
      check_video_upload_quota admission.game.team_id user.id settings.billing_default_plan_code
        outside.account_id db)

unfoldable pub initiate_upload :
    UploadSettings
    → User
    → CreateUploadRequest
    → UploadAnswers
    → Db
    → Result CreateUploadResponse × Db
unfolding admit_upload after_admission
initiate_upload settings user payload outside db =
    after_admission settings user payload outside db
      (admit_upload settings outside.limiter user payload db)
