-- ===== src/Api/Mfa.antt =====
-- apps/api/src/nextballup_api/security/mfa.py: `verify_totp_code`, and the second factor of a login,
-- `_require_mfa_for_login_if_enabled` of apps/api/src/nextballup_api/routers/auth.py. The HMAC of a
-- counter under the secret, the hash of a recovery code and `str.isdigit` are arguments. A missing
-- resource type of an audit entry is the empty text.
pub mod Once
use Prim.Native.String.{String}
use mathlib.Core.Option
use nextballup.Prelude.{
  ℕ, zero, suc, ◌*◌, ◌/◌, Bool, true, false, not, ◌&&◌, ◌||◌, Option, none, some, List, [], ◌∷◌,
  ◌==◌, ltb, leb, if◌then◌else◌, is_some, is_none, any_where, find_where, update_where, length,
}
use nextballup.Core.Text.{Text, text_eq, is_blank, is_empty, strip}
use nextballup.Core.Errors.{AppError, ErrorClass, ErrorCode, AuditAction, code_value}
use nextballup.Core.Json.{Json, Fields}
use nextballup.Db.{Db, User, UserTotpSecret, MfaRecoveryCode, write_audit}
use nextballup.Api.Result.{Result, ok, err, app_error}

-- The settings, and what stands outside: the code of a counter under an encrypted secret, the hash of
-- a recovery code, and the characters that are digits to Python.
pub record Authenticator : Type 0 where
  pub step_seconds : ℕ
  pub digits : ℕ
  pub hotp : Text → ℕ → Text
  pub hash_recovery_code : Text → Text
  pub is_digit : ℕ → Bool

-- `TotpVerification`, or the exception of `struct.pack` or `hmac.compare_digest`.
pub data TotpVerification : Type 0 where
  crashed rejected : TotpVerification
  accepted : ℕ → TotpVerification

-- `last_used_counter is not None and counter <= last_used_counter`
unfoldable pub is_replay : Option ℕ → ℕ → Bool
is_replay none counter = false
is_replay (some last) counter = leb counter last

-- The loop over the expected codes.
unfoldable pub match_counter : (ℕ → Text) → Text → Option ℕ → List ℕ → TotpVerification
unfolding text_eq is_replay
match_counter expected code last [] = TotpVerification.rejected
match_counter expected code last (counter ∷ counters) =
    if text_eq (expected counter) code
    then (if is_replay last counter
        then TotpVerification.rejected
        else TotpVerification.accepted counter)
    else match_counter expected code last counters

unfoldable pub is_malformed : Authenticator → Text → Bool
unfolding any_where
is_malformed auth code =
    is_empty code
    || (any_where (λ c. not (auth.is_digit c)) code || not (length code == auth.digits))

-- The window of one step on either side. A counter below 0 does not pack, and a text that is not
-- ASCII does not compare.
unfoldable pub match_window : (ℕ → Text) → Text → Option ℕ → ℕ → TotpVerification
unfolding any_where match_counter
match_window expected code last zero = TotpVerification.crashed
match_window expected code last (suc before) =
    if any_where (λ c. ltb 127 c) code
    then TotpVerification.crashed
    else match_counter expected code last (before ∷ suc before ∷ suc (suc before) ∷ [])

unfoldable pub verify_totp_code : Authenticator → Text → Text → ℕ → Option ℕ → TotpVerification
unfolding is_malformed match_window
verify_totp_code auth secret code at last =
    if is_malformed auth code
    then TotpVerification.rejected
    else match_window (auth.hotp secret) code last (at / auth.step_seconds)

-- `last_used_at` as a counter, and a counter as a `last_used_at`.
unfoldable pub last_counter : ℕ → Option ℕ → Option ℕ
last_counter step none = none
last_counter step (some at) = some (at / step)

abbrev pub used_time : ℕ → ℕ → ℕ
used_time step counter = counter * step

-- The row that a login asks for.
unfoldable pub enrolled : ℕ → UserTotpSecret → Bool
enrolled user_id r = r.user_id == user_id && (is_some r.confirmed_at && is_none r.disabled_at)

unfoldable pub check_totp : Authenticator → UserTotpSecret → Text → ℕ → TotpVerification
unfolding verify_totp_code last_counter
check_totp auth secret submitted now =
    verify_totp_code auth secret.secret_ciphertext submitted now
      (last_counter auth.step_seconds secret.last_used_at)

login_failed : User → ErrorCode → Db → Db
unfolding write_audit
login_failed user reason db =
    write_audit
      (record {
        action = AuditAction.user_login_failed;
        actor_user_id = some user.id;
        resource_type = "";
        resource_id = none;
        team_id = none;
        extra = Fields.field "reason" (Json.str (code_value reason)) Fields.end;
      })
      db

-- The recovery code that was given, if it is unused.
unfoldable pub unused_code : Authenticator → User → Text → MfaRecoveryCode → Bool
unfolding text_eq
unused_code auth user submitted r =
    r.user_id == user.id
    && (text_eq r.code_hash (auth.hash_recovery_code submitted) && is_none r.used_at)

unfoldable pub use_recovery_code : Authenticator → User → Text → Db → Result (Unit {0}) × Db
unfolding unused_code find_where update_where login_failed write_audit
use_recovery_code auth user submitted db =
    elim (find_where (unused_code auth user submitted) db.recovery_codes) [
      | none ↦ (
        err (app_error ErrorClass.invalid_credentials_error ErrorCode.mfa_invalid_code),
        login_failed user ErrorCode.mfa_invalid_code db,
      )
      | some recovery ↦ (
        ok tt,
        write_audit
            (record {
              action = AuditAction.user_mfa_recovery_used;
              actor_user_id = some user.id;
              resource_type = "mfa_recovery_code";
              resource_id = some recovery.id;
              team_id = none;
              extra = Fields.end;
            })
            (record db {
              recovery_codes =
                  update_where (λ r. r.id == recovery.id) (λ r. record r { used_at = some db.now })
                    db.recovery_codes;
            }),
      )
    ]

unfoldable pub settle_totp :
    Authenticator → User → UserTotpSecret → Text → Db → TotpVerification → Result (Unit {0}) × Db
unfolding update_where use_recovery_code
settle_totp auth user secret submitted db TotpVerification.crashed =
    (err (app_error ErrorClass.runtime_error ErrorCode.internal_error), db)
settle_totp auth user secret submitted db TotpVerification.rejected =
    use_recovery_code auth user submitted db
settle_totp auth user secret submitted db (TotpVerification.accepted counter) = (
  ok tt,
  record db {
    totp_secrets =
        update_where (λ r. r.id == secret.id)
          (λ r. record r { last_used_at = some (used_time auth.step_seconds counter) })
          db.totp_secrets;
  },
)

check_factor : Authenticator → User → UserTotpSecret → Option Text → Db → Result (Unit {0}) × Db
unfolding login_failed check_totp settle_totp strip
check_factor auth user secret code db = elim code [
  | none ↦ (
    err (app_error ErrorClass.authentication_error ErrorCode.mfa_required),
    login_failed user ErrorCode.mfa_required db,
  )
  | some text ↦
      if is_empty text
      then (
        err (app_error ErrorClass.authentication_error ErrorCode.mfa_required),
        login_failed user ErrorCode.mfa_required db,
      )
      else settle_totp auth user secret (strip text) db (check_totp auth secret (strip text) db.now)
]

-- The second factor of a login, with the state that the login commits.
unfoldable pub require_mfa_for_login_if_enabled :
    Authenticator → User → Option Text → Db → Result (Unit {0}) × Db
unfolding enrolled find_where check_factor
require_mfa_for_login_if_enabled auth user code db =
    elim (find_where (enrolled user.id) db.totp_secrets) [
      | none ↦ (ok tt, db)
      | some secret ↦ check_factor auth user secret code db
    ]
