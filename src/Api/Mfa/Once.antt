-- ===== src/Api/Mfa/Once.antt =====
-- security/mfa.py and routers/auth.py: a code of the second factor is good for one login.
use mathlib.Core.Option
use native.Mathlib.Nat.{mul-div_cancel}
use nextballup.Prelude.{
  ℕ, zero, suc, ◌+◌, ◌-◌, ◌/◌, ◌≤◌, ◌<◌, ◌≡◌, refl, sym, ap, ◌∙◌, subst, false, Option, some, List,
  [], ◌∷◌, arith, ◌==◌, ==_refl, inl, inr, Bool-cases, find_where, find_where-update_where, All,
  any_where, ltb,
}
use nextballup.Core.Text.{Text, text_eq, text_eq_sound, is_empty, strip}
use nextballup.Db.{Db, User, UserTotpSecret}
use nextballup.Api.Mfa.{
  Authenticator, TotpVerification, is_replay, match_counter, is_malformed, match_window,
  verify_totp_code, last_counter, used_time, enrolled, check_totp, settle_totp, check_factor,
  require_mfa_for_login_if_enabled,
}

-- A counter of the window whose code was given, and after the last one that was used.
pub record Matched (expected : ℕ → Text) (code : Text) (last : Option ℕ) (low high counter : ℕ)
    : Type 0 where
  pub same_code : expected counter ≡ code
  pub above : low ≤ counter
  pub below : counter ≤ high
  pub newer : (used : ℕ) → last ≡ some used → used < counter

match_counter-Matched :
    (expected : ℕ → Text) (code : Text) (last : Option ℕ) (low high : ℕ) (counters : List ℕ)
    {counter : ℕ}
    → All (λ c. (low ≤ c) × (c ≤ high)) counters
    → match_counter expected code last counters ≡ TotpVerification.accepted counter
    → Matched expected code last low high counter
unfolding match_counter is_replay
match_counter-Matched expected code last low high [] within e = absurd (cc e)
match_counter-Matched expected code last low high (c ∷ cs) {counter} within e =
    elim (Bool-cases (text_eq (expected c) code)) [
      | inr n ↦ match_counter-Matched expected code last low high cs within.1 (rw n at e)
      | inl t ↦ elim (Bool-cases (is_replay last c)) [
        | inl r ↦ absurd (cc (rw (t, r) at e))
        | inr f ↦
            let same : c ≡ counter = cc (rw (t, f) at e) in
            subst (Matched expected code last low high) same (record {
              same_code = text_eq_sound (expected c) code t;
              above = within.0.0;
              below = within.0.1;
              newer = λ used k. ground (arith, rw k at f);
            })
      ]
    ]

-- A code that is accepted is the code of a counter at most one step from the current one, and that
-- counter is later than the last one that was used.
pub verify_totp_code-Matched :
    (auth : Authenticator) (secret code : Text) (at : ℕ) (last : Option ℕ) {counter : ℕ}
    → verify_totp_code auth secret code at last ≡ TotpVerification.accepted counter
    → let current = at / auth.step_seconds in
      Matched (auth.hotp secret) code last (current - 1) (current + 1) counter
unfolding verify_totp_code match_window
verify_totp_code-Matched auth secret code at last {counter} e =
    elim (Bool-cases (is_malformed auth code)) [
      | inl t ↦ absurd (cc (rw t at e))
      | inr f ↦ window (at / auth.step_seconds) (rw f at e)
    ]
  where
    window :
        (current : ℕ)
        → match_window (auth.hotp secret) code last current ≡ TotpVerification.accepted counter
        → Matched (auth.hotp secret) code last (current - 1) (current + 1) counter
    window zero k = absurd (cc k)
    window (suc before) k = elim (Bool-cases (any_where (λ c. ltb 127 c) code)) [
      | inl t ↦ absurd (cc (rw t at k))
      | inr f ↦
          let low : before ≡ suc before - 1 = omega arith in
          subst (λ from. Matched (auth.hotp secret) code last from (suc before + 1) counter) low
            (match_counter-Matched (auth.hotp secret) code last before (suc before + 1)
              (before ∷ suc before ∷ suc (suc before) ∷ []) (ground arith) (rw f at k))
    ]

last_counter-used_time :
    (step counter : ℕ) → 0 < step → last_counter step (some (used_time step counter)) ≡ some counter
unfolding last_counter
last_counter-used_time step counter positive = ap some (mul-div_cancel counter positive)

require_mfa-stamped :
    (auth : Authenticator) (user : User) (code : Text) (db : Db) (secret : UserTotpSecret)
    {counter : ℕ}
    → find_where (enrolled user.id) db.totp_secrets ≡ some secret
    → is_empty code ≡ false
    → check_totp auth secret (strip code) db.now ≡ TotpVerification.accepted counter
    → find_where
        (enrolled user.id)
        (require_mfa_for_login_if_enabled auth user (some code) db).1.totp_secrets
      ≡ some (record secret { last_used_at = some (used_time auth.step_seconds counter) })
unfolding require_mfa_for_login_if_enabled check_factor settle_totp enrolled
require_mfa-stamped auth user code db secret {counter} found full accepted =
    rw (found, require_mfa_for_login_if_enabled, check_factor, full, accepted, settle_totp)
      (find_where-update_where (enrolled user.id) (λ r. r.id == secret.id)
          (λ r. record r { last_used_at = some (used_time auth.step_seconds counter) }) (λ r. refl)
          db.totp_secrets
        ∙ rw (found, ==_refl secret.id) refl)

-- After a login with a code of the second factor, every later check of the same user's secret accepts
-- only a code of a later counter, whatever code is given and whatever the clock says.
pub require_mfa_once :
    (auth : Authenticator) (user : User) (code : Text) (db : Db) (secret : UserTotpSecret)
    {counter : ℕ}
    → 0 < auth.step_seconds
    → find_where (enrolled user.id) db.totp_secrets ≡ some secret
    → is_empty code ≡ false
    → check_totp auth secret (strip code) db.now ≡ TotpVerification.accepted counter
    → (again : Text) (later : ℕ) (row : UserTotpSecret) {next : ℕ}
    → find_where
        (enrolled user.id)
        (require_mfa_for_login_if_enabled auth user (some code) db).1.totp_secrets
      ≡ some row
    → check_totp auth row again later ≡ TotpVerification.accepted next
    → (counter < next) × (auth.hotp secret.secret_ciphertext next ≡ again)
unfolding check_totp
require_mfa_once auth user code db secret {counter} positive found full accepted again later row
      {next} there e =
    let stamped = require_mfa-stamped auth user code db secret found full accepted in
    let same : record secret { last_used_at = some (used_time auth.step_seconds counter) } ≡ row =
      Option.some-injective _ row (sym stamped ∙ there) in
    let check = rw (← same, last_counter-used_time auth.step_seconds counter positive) at e in
    let match =
      verify_totp_code-Matched auth secret.secret_ciphertext again later (some counter) check in
    (match.newer counter refl, match.same_code)
