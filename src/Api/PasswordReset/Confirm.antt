-- ===== src/Api/PasswordReset/Confirm.antt =====
-- apps/api/src/nextballup_api/routers/auth.py: `reset_password`. The hash of the new password and the count
-- of the rate limiter are arguments; the cookies are left out. The status of an error follows from its code.
use nextballup.Prelude.{ℕ, none, some, ◌==◌, update_where}
use nextballup.Core.Text.{Text, codes}
use nextballup.Core.Errors.{ErrorClass, ErrorCode, AuditAction}
use nextballup.Core.Json.{Json, Fields}
use nextballup.Db.{Db, User, write_audit}
use nextballup.Api.Result.{Result, ok, err, app_error}
use nextballup.Api.RateLimit.{RateLimiter, enforce_rate_limit}
use nextballup.Api.Sessions.{bump_session_version, revoke_refresh_sessions, user_event}
use nextballup.Api.PasswordReset.{
  Rejection, Consumption, is_pending_of, consume_password_reset_token,
}

abbrev reason_value : Rejection → Text
reason_value Rejection.invalid = codes "invalid"
reason_value Rejection.used = codes "used"
reason_value Rejection.expired = codes "expired"

abbrev rejection_code : Rejection → ErrorCode
rejection_code Rejection.invalid = ErrorCode.password_reset_token_invalid
rejection_code Rejection.used = ErrorCode.password_reset_token_used
rejection_code Rejection.expired = ErrorCode.password_reset_token_expired

unfoldable pub set_password_hash : User → Text → Db → Db
unfolding update_where
set_password_hash user password_hash db = record db {
  users =
      update_where (λ u. u.id == user.id) (λ u. record u { password_hash = password_hash })
        db.users;
}

-- The tokens of the user that are still unused.
unfoldable pub use_up_tokens : User → Db → Db
unfolding update_where is_pending_of
use_up_tokens user db = record db {
  password_reset_tokens =
      update_where (is_pending_of user.id) (λ t. record t { used_at = some db.now })
        db.password_reset_tokens;
}

-- What a consumed token does to its user.
unfoldable pub reset_user : User → Text → Db → Db
unfolding set_password_hash bump_session_version revoke_refresh_sessions use_up_tokens write_audit
reset_user user password_hash db =
    write_audit (user_event AuditAction.user_password_reset_succeeded (some user) Fields.end) (
      use_up_tokens user (
        revoke_refresh_sessions user.id "password_reset"
          (bump_session_version user (set_password_hash user password_hash db))))

unfoldable pub settle_reset : Text → Consumption × Db → Result ℕ × Db
unfolding reset_user write_audit
settle_reset password_hash (Consumption.rejected r, db) = (
  err (app_error ErrorClass.app_error (rejection_code r)),
  write_audit
      (user_event AuditAction.user_password_reset_rejected none
        (Fields.field "reason" (Json.str (reason_value r)) Fields.end))
      db,
)
settle_reset password_hash (Consumption.consumed user token, db) =
    (ok db.now, reset_user user password_hash db)

-- The time of the reset, and the state.
unfoldable pub reset_password :
    RateLimiter → ℕ → (Text → Text) → (Text → Text) → Text → Text → Db → Result ℕ × Db
unfolding enforce_rate_limit settle_reset consume_password_reset_token
reset_password limiter max_attempts hash_token hash_password raw_token new_password db =
    elim (enforce_rate_limit limiter max_attempts) [
      | err e ↦ (err e, db)
      | ok _ ↦
          settle_reset (hash_password new_password)
            (consume_password_reset_token hash_token raw_token db)
    ]
