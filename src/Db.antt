-- ===== src/Db.antt =====
-- The PostgreSQL database as a record of tables, each the list of its rows, with the clock that
-- both `func.now()` and `datetime.now` read. A handler returns the state as committed.
-- Row-level security (the `set_config` calls of tenant.py) is not modelled: a statement sees every
-- row that its WHERE clause takes.
mod Videos
mod Billing
mod Teams
mod Tokens
pub use Videos.*
pub use Billing.*
pub use Teams.*
pub use Tokens.*
use Prim.Native.String.{String}
use nextballup.Prelude.{ℕ, Option, List, ◌∷◌}
use nextballup.Core.Errors.{AuditAction}
use nextballup.Core.Json.{Fields}

-- A row of `audit_logs`; the actor of a worker's entry is NULL.
pub record AuditLog : Type 0 where
  pub action : AuditAction
  pub actor_user_id : Option ℕ
  pub resource_type : String
  pub resource_id : Option ℕ
  pub team_id : Option ℕ
  pub extra : Fields

pub record Db : Type 0 where
  pub videos : List Video
  pub jobs : List ProcessingJob
  pub artifacts : List CvModelArtifact
  pub games : List Game
  pub events : List VideoEvent
  pub plans : List Plan
  pub accounts : List BillingAccount
  pub links : List AccountTeamLink
  pub subscriptions : List Subscription
  pub usage : List UsageEvent
  pub users : List User
  pub teams : List Team
  pub memberships : List TeamMembership
  pub invites : List TeamInvite
  pub consents : List TeamPrivacyConsent
  pub password_reset_tokens : List PasswordResetToken
  pub totp_secrets : List UserTotpSecret
  pub recovery_codes : List MfaRecoveryCode
  pub refresh_sessions : List RefreshSession
  pub audits : List AuditLog
  pub now : ℕ

-- `write_audit` and `write_worker_audit`: the newest entry stands first.
unfoldable pub write_audit : AuditLog → Db → Db
write_audit entry db = record db { audits = entry ∷ db.audits }
