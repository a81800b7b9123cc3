-- ===== src/Api/PasswordReset/Request.antt =====
-- apps/api/src/nextballup_api/routers/auth.py: `request_password_reset`. Whether the email is delivered, the
-- name of the provider, the random token and the key of its row are arguments.
use nextballup.Prelude.{
  ℕ, ◌+◌, ◌*◌, Bool, ◌&&◌, Option, none, some, ◌==◌, if◌then◌else◌, is_none, find_where,
  update_where,
}
use nextballup.Core.Text.{Text, codes, text_eq, lower}
use nextballup.Core.Errors.{ErrorClass, ErrorCode, AuditAction}
use nextballup.Core.Json.{Json, Fields}
use nextballup.Db.{Db, User, AuditLog, write_audit}
use nextballup.Api.Result.{Result, ok, err, app_error}
use nextballup.Api.RateLimit.{RateLimiter, enforce_rate_limit}
use nextballup.Api.Sessions.{user_event}
use nextballup.Api.PasswordReset.{issue_password_reset_token}

pub record ResetMail : Type 0 where
  pub hash_token : Text → Text
  pub ttl_minutes : ℕ
  pub provider : Text
  pub raw_token : Text
  pub token_id : ℕ
  pub delivered : Bool

abbrev pub token_event : AuditAction → User → ResetMail → Fields → AuditLog
token_event action user mail extra = record {
  action = action;
  actor_user_id = some user.id;
  resource_type = "password_reset_token";
  resource_id = some mail.token_id;
  team_id = none;
  extra = extra;
}

-- A token whose email was not delivered is used up.
unfoldable pub retire_token : ℕ → Db → Db
unfolding update_where
retire_token token_id db = record db {
  password_reset_tokens =
      update_where (λ t. t.id == token_id && is_none t.used_at)
        (λ t. record t { used_at = some db.now }) db.password_reset_tokens;
}

unfoldable pub deliver_reset : ResetMail → User → Db → Db
unfolding write_audit retire_token
deliver_reset mail user db =
    if mail.delivered
    then write_audit
        (token_event AuditAction.user_password_reset_sent user mail
          (Fields.field "provider" (Json.str mail.provider) Fields.end))
        db
    else write_audit
        (token_event AuditAction.user_password_reset_rejected user mail (
          Fields.field "reason" (Json.str (codes "delivery_failed"))
            (Fields.field "provider" (Json.str mail.provider) Fields.end)))
        (retire_token mail.token_id db)

-- A token could not be issued: ValueError, which ends in a rollback.
unfoldable pub send_reset : ResetMail → User → Option Db → Db → Result ℕ × Db
unfolding write_audit deliver_reset
send_reset mail user none db =
    (err (app_error ErrorClass.runtime_error ErrorCode.internal_error), db)
send_reset mail user (some issued) db = (
  ok db.now,
  deliver_reset mail user (
      write_audit
        (token_event AuditAction.user_password_reset_requested user mail (
          Fields.field "expires_at" (Json.num (db.now + mail.ttl_minutes * 60))
            (Fields.field "provider" (Json.str mail.provider) Fields.end)))
        issued),
)

-- An address that no active user has is answered alike.
unfoldable pub request_for : ResetMail → Option User → Db → Result ℕ × Db
unfolding write_audit send_reset issue_password_reset_token
request_for mail none db = (
  ok db.now,
  write_audit
      (user_event AuditAction.user_password_reset_requested none
        (Fields.field "result" (Json.str (codes "accepted")) Fields.end))
      db,
)
request_for mail (some user) db =
    send_reset mail user
      (issue_password_reset_token mail.hash_token mail.ttl_minutes user.id mail.raw_token
        mail.token_id db)
      db

abbrev pub active_user : Option User → Option User
active_user none = none
active_user (some user) = if user.is_active then some user else none

-- The time of the request, and the state.
unfoldable pub request_password_reset : RateLimiter → ℕ → ResetMail → Text → Db → Result ℕ × Db
unfolding enforce_rate_limit request_for find_where text_eq lower
request_password_reset limiter max_attempts mail email db =
    elim (enforce_rate_limit limiter max_attempts) [
      | err e ↦ (err e, db)
      | ok _ ↦
          request_for mail (active_user (find_where (λ u. text_eq u.email (lower email)) db.users))
            db
    ]
