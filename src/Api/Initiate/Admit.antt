-- ===== src/Api/Initiate/Admit.antt =====
-- videos.py, `initiate_upload`: the checks before the upload is admitted, and the refusal of a quota.
use nextballup.Prelude.{ℕ, Bool, true, false, not, ◌||◌, Option, none, some, ◌==◌, find_where}
use nextballup.Core.Text.{Text, codes}
use nextballup.Core.Errors.{AppError, ErrorClass, ErrorCode, AuditAction}
use nextballup.Core.Json.{Json, Fields, num_or_null, str_or_null}
use nextballup.Db.{Db, User, Game, Team, TeamPrivacyConsent, write_audit}
use nextballup.Api.Result.{Result, ok, err, app_error, raise_if, ◌>>=◌, ◌>>◌}
use nextballup.Api.RateLimit.{RateLimiter, enforce_rate_limit}
use nextballup.Api.Permissions.{require_verified_account, require_team_coach}
use nextballup.Api.Billing.{QuotaCheck, QuotaKey}
use nextballup.Api.Storage.{PresignedUpload, S3Client, StorageSettings}
use nextballup.Api.Videos.{or_raise}
use nextballup.Api.Initiate.Payload.{CreateUploadRequest, UploadLimits, validate_upload}
use nextballup.Api.Initiate.Consent.{require_uploader_youth_consent, resolve_upload_privacy_consent}

pub record UploadSettings : Type 0 where
  pub limits : UploadLimits
  pub storage : StorageSettings
  pub verified_only : Bool
  pub sensitive_consent : Bool
  pub video_upload_rate_limit_attempts : ℕ
  pub billing_default_plan_code : Text
  pub upload_url_expires_seconds : ℕ

-- What comes from outside of a request: the count of the rate limiter, the client of the store if one is
-- configured, base64 of a checksum, the ceiling of a float quotient, the text of a UUID, and the new ids.
pub record UploadAnswers : Type 0 where
  pub limiter : RateLimiter
  pub storage : Option S3Client
  pub base64 : Text → Text
  pub ceil_quotient : ℕ → ℕ → ℕ
  pub uuid_text : ℕ → Text
  pub video_id : ℕ
  pub account_id : ℕ

pub record CreateUploadResponse : Type 0 where
  pub id : ℕ
  pub presigned : PresignedUpload
  pub expires_at : ℕ

-- Rows that the checks of a request found.
pub record Admission : Type 0 where
  pub game : Game
  pub team : Team
  pub privacy_consent : Option TeamPrivacyConsent

abbrev is_deleted : Team → Bool
is_deleted team = elim team.deleted_at [ none ↦ false | some _ ↦ true ]

unfoldable pub open_team : ℕ → Db → Result Team
unfolding find_where
open_team team_id db =
    or_raise (find_where (λ t. t.id == team_id) db.teams) ErrorClass.not_found_error
      ErrorCode.team_not_found
    >>= λ team.
        raise_if (not team.is_active || is_deleted team) ErrorClass.not_found_error
          ErrorCode.team_not_found
        >> ok team

-- The checks before the plan's quota, in their order.
unfoldable pub admit_upload :
    UploadSettings → RateLimiter → User → CreateUploadRequest → Db → Result Admission
unfolding validate_upload require_verified_account find_where require_team_coach open_team
    resolve_upload_privacy_consent require_uploader_youth_consent enforce_rate_limit
admit_upload settings limiter user payload db =
    validate_upload payload settings.limits
    >> (require_verified_account settings.verified_only user
        >> (or_raise (find_where (λ g. g.id == payload.game_id) db.games) ErrorClass.not_found_error
              ErrorCode.game_not_found
            >>= λ game. require_team_coach user game.team_id db >>= λ _.
                open_team game.team_id db >>= λ team.
                resolve_upload_privacy_consent settings.sensitive_consent team
                  payload.privacy_consent_id db
                >>= λ consent.
                    require_uploader_youth_consent settings.sensitive_consent team user
                    >> (enforce_rate_limit limiter settings.video_upload_rate_limit_attempts
                        >> ok (record { game = game; team = team; privacy_consent = consent }))))

abbrev quota_key_value : QuotaKey → Text
quota_key_value QuotaKey.videos_per_month = codes "max_videos_per_month"
quota_key_value QuotaKey.storage_bytes = codes "max_storage_bytes"

abbrev requested_field : Option ℕ → Fields → Fields
requested_field none rest = rest
requested_field (some n) rest = Fields.field "requested" (Json.num n) rest

abbrev quota_exceeded_error : AppError
quota_exceeded_error = app_error ErrorClass.forbidden_error ErrorCode.billing_quota_exceeded

-- A denied quota commits its audit entry, and the billing account that was made on the way.
unfoldable pub deny_quota : User → ℕ → QuotaCheck → Option ℕ → Db → Result CreateUploadResponse × Db
unfolding write_audit
deny_quota user team_id check requested db = (
  err quota_exceeded_error,
  write_audit
      (record {
        action = AuditAction.billing_quota_denied;
        actor_user_id = some user.id;
        resource_type = "video";
        resource_id = none;
        team_id = some team_id;
        extra = Fields.field "quota_key" (Json.str (quota_key_value check.quota_key)) (
            Fields.field "limit" (num_or_null check.limit) (
              Fields.field "used" (Json.num check.used) (
                requested_field requested
                  (Fields.field "plan_code" (str_or_null check.plan_code) Fields.end))));
      })
      db,
)
