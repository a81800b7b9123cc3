-- ===== src/Api/PasswordReset/Undelivered.antt =====
-- auth.py, `request_password_reset`: a link whose email was not delivered.
use mathlib.Core.Option
use nextballup.Prelude.{
  ℕ, ◌+◌, ◌*◌, ◌≡◌, refl, sym, ap, subst, Bool, true, false, ◌&&◌, ◌||◌, some, List, ◌∷◌, ◌==◌,
  ==_refl, ltb, inl, inr, Bool-cases, Option-cases, is_none, is_some, find_where, update_where,
  length,
}
use nextballup.Core.Text.{Text, is_empty, text_eq, text_eq_refl, lower}
use nextballup.Db.{Db, User, PasswordResetToken, write_audit}
use nextballup.Api.Result.{ok, Result-cases}
use nextballup.Api.RateLimit.{RateLimiter, enforce_rate_limit}
use nextballup.Api.PasswordReset.{
  Rejection, Consumption, consume_token, has_hash, is_pending_of, consume_hash,
  consume_password_reset_token, issue_password_reset_token, new_token,
}
use nextballup.Api.PasswordReset.Request.{
  ResetMail, retire_token, deliver_reset, send_reset, request_for, active_user,
  request_password_reset,
}

find_where-first {ℓ} :
    {A : Type ℓ} (p : A → Bool) (x : A) (xs : List A) → p x ≡ true → find_where p (x ∷ xs) ≡ some x
unfolding find_where
find_where-first p x xs h = rw h refl

has_hash-own : (hash : Text) (t : PasswordResetToken) → t.token_hash ≡ hash → has_hash hash t ≡ true
unfolding has_hash
has_hash-own hash t same =
    subst (λ h. text_eq t.token_hash h ≡ true) same (text_eq_refl t.token_hash)

-- A used token that stands first is found, and turned down.
consume_hash-used_first :
    (hash : Text) (t : PasswordResetToken) (rest : List PasswordResetToken) (db : Db)
    → db.password_reset_tokens ≡ (t ∷ rest)
    → t.token_hash ≡ hash
    → is_some t.used_at ≡ true
    → consume_hash hash db ≡ (Consumption.rejected Rejection.used, db)
unfolding consume_hash consume_token
consume_hash-used_first hash t rest db table same used =
    let own : has_hash hash t ≡ true = has_hash-own hash t same in
    let first =
      subst (λ ts. find_where (has_hash hash) ts ≡ some t) (sym table)
        (find_where-first (has_hash hash) t rest own) in
    let again =
      subst (λ ts. find_where (λ x. has_hash hash x && x.user_id == t.user_id) ts ≡ some t)
        (sym table)
        (find_where-first (λ x. has_hash hash x && x.user_id == t.user_id) t rest
          (rw (own, ==_refl t.user_id) refl)) in
    rw (first, consume_hash, again, consume_token, used) refl

-- The state after an issue whose email was not delivered: its token stands first, and is used up.
deliver_reset-retired :
    (mail : ResetMail) (user : User) (db after : Db)
    → mail.delivered ≡ false
    → issue_password_reset_token mail.hash_token mail.ttl_minutes user.id mail.raw_token
        mail.token_id db
      ≡ some after
    → (fresh : PasswordResetToken) × (rest : List PasswordResetToken) × ((send_reset mail user
          (some after)
          db).1.password_reset_tokens
        ≡ (fresh ∷ rest))
      × (fresh.token_hash ≡ mail.hash_token mail.raw_token)
      × (is_some fresh.used_at ≡ true)
unfolding send_reset deliver_reset retire_token write_audit update_where issue_password_reset_token
    new_token
deliver_reset-retired mail user db after failed issued =
    elim (Option-cases (find_where (λ u. u.id == user.id) db.users)) [
      | inl n ↦ absurd (cc (rw (n, issue_password_reset_token) at issued))
      | inr (u, f) ↦ elim (Bool-cases u.is_active) [
        | inr off ↦ absurd (cc (rw (f, off, issue_password_reset_token) at issued))
        | inl on ↦
            let same =
              Option.some-injective _ after (rw (f, on, issue_password_reset_token) at issued) in
            let own =
              record (new_token mail.token_id u.id (mail.hash_token mail.raw_token)
                (db.now + mail.ttl_minutes * 60)) { used_at = some db.now } in
            let others =
              update_where (λ t. t.id == mail.token_id && is_none t.used_at)
                (λ t. record t { used_at = some db.now })
                (update_where (is_pending_of u.id) (λ t. record t { used_at = some db.now })
                  db.password_reset_tokens) in
            (
              own,
              others,
              subst
                  (λ d. (send_reset mail user (some d) db).1.password_reset_tokens ≡ (own ∷ others))
                  same (rw (failed, deliver_reset, ==_refl mail.token_id) refl),
              refl,
              refl,
            )
      ]
    ]

-- A link that was requested for an active user, but whose email could not be delivered, does not reset a
-- password: when it is presented in the state that the request leaves, at any time, it is turned down and
-- nothing changes.
pub request_password_reset_undelivered :
    (limiter : RateLimiter) (max : ℕ) (mail : ResetMail) (email : Text) (db : Db) (user : User)
    {at' : ℕ} {after : Db}
    → active_user (find_where (λ u. text_eq u.email (lower email)) db.users) ≡ some user
    → mail.delivered ≡ false
    → request_password_reset limiter max mail email db ≡ (ok at', after)
    → (later : ℕ)
    → (r : Rejection) × (consume_password_reset_token mail.hash_token mail.raw_token
          (record after { now = later })
        ≡ (Consumption.rejected r, record after { now = later }))
unfolding request_password_reset request_for send_reset consume_password_reset_token
request_password_reset_undelivered limiter max mail email db user {at'} {after} whose failed e
      later =
    elim (Result-cases (enforce_rate_limit limiter max)) [
      | inr (x, n) ↦ absurd (cc (ap (λ p. p.0) (rw (n, request_password_reset) at e)))
      | inl (done, a) ↦
          elim (Option-cases (
            issue_password_reset_token mail.hash_token mail.ttl_minutes user.id mail.raw_token
              mail.token_id db)) [
                | inl n ↦ absurd (
                    cc (
                      ap (λ p. p.0)
                        (rw (a, whose, n, request_password_reset, request_for, send_reset) at e)))
                | inr (issued, i) ↦
                    let saved =
                      ap (λ p. p.1) (rw (a, whose, i, request_password_reset, request_for) at e) in
                    let (fresh, rest, table, same, used) =
                      deliver_reset-retired mail user db issued failed i in
                    elim (Bool-cases (is_empty mail.raw_token || ltb 256 (length mail.raw_token))) [
                      | inl bad ↦ (Rejection.invalid, rw bad refl)
                      | inr good ↦ (
                        Rejection.used,
                        rw good (
                            consume_hash-used_first (mail.hash_token mail.raw_token) fresh rest
                              (record after { now = later })
                              (subst (λ (d : Db). d.password_reset_tokens ≡ (fresh ∷ rest)) saved
                                table)
                              same used),
                      )
                    ]
              ]
    ]
