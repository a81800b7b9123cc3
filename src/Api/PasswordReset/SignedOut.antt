-- ===== src/Api/PasswordReset/SignedOut.antt =====
-- auth.py, `reset_password`: that a new password ends what the old one had opened.
use nextballup.Prelude.{
  ℕ, ◌+◌, ◌≤◌, ◌≡◌, refl, sym, ap, ◌∙◌, subst, ◌&&◌, List, Option, none, some, arith, ◌==◌, ==→eq,
  inl, inr, Bool-cases, is_none, find_where, find_where_self, update_where, find_where-update_where,
  find_where-update_where_none,
}
use nextballup.Core.Text.{Text}
use nextballup.Db.{Db, User, PasswordResetToken, write_audit}
use nextballup.Api.Result.{ok, err, Result-cases}
use nextballup.Api.RateLimit.{RateLimiter, enforce_rate_limit}
use nextballup.Api.Sessions.{
  Claims, TokenReader, NextToken, unauthenticated, refresh, bump_session_version,
  revoke_refresh_sessions,
}
use nextballup.Api.Sessions.Replay.{refresh-outdated}
use nextballup.Api.PasswordReset.{
  Consumption, mark_used, has_hash, is_pending_of, live_user, consume_password_reset_token,
}
use nextballup.Api.PasswordReset.Once.{consume-Redeemed}
use nextballup.Api.PasswordReset.Confirm.{
  set_password_hash, use_up_tokens, reset_user, settle_reset, reset_password,
}

-- A reset that succeeds consumed a token, and reset its user.
record Reset (password_hash : Text) (out : Consumption × Db) (after : Db) : Type 0 where
  user : User
  token : PasswordResetToken
  mid : Db
  consumed : out ≡ (Consumption.consumed user token, mid)
  saved : reset_user user password_hash mid ≡ after

settle_reset-Reset :
    (password_hash : Text) (out : Consumption × Db) {at' : ℕ} {after : Db}
    → settle_reset password_hash out ≡ (ok at', after)
    → Reset password_hash out after
unfolding settle_reset
settle_reset-Reset password_hash (Consumption.rejected r, db) e = absurd (cc (ap (λ p. p.0) e))
settle_reset-Reset password_hash (Consumption.consumed user token, db) e = record {
  user = user;
  token = token;
  mid = db;
  consumed = refl;
  saved = ap (λ p. p.1) e;
}

reset_password-Reset :
    (limiter : RateLimiter) (max : ℕ) (hash_token hash_password : Text → Text) (raw new : Text)
    (db : Db) {at' : ℕ} {after : Db}
    → reset_password limiter max hash_token hash_password raw new db ≡ (ok at', after)
    → Reset (hash_password new) (consume_password_reset_token hash_token raw db) after
unfolding reset_password
reset_password-Reset limiter max hash_token hash_password raw new db e =
    elim (Result-cases (enforce_rate_limit limiter max)) [
      | inr (x, n) ↦ absurd (cc (ap (λ p. p.0) (rw (n, reset_password) at e)))
      | inl (done, a) ↦
          settle_reset-Reset (hash_password new) (consume_password_reset_token hash_token raw db)
            (rw (a, reset_password) at e)
    ]

-- What is left of a user's sessions and tokens, and the user's row.
abbrev pub Closed : User → Text → Db → Type 0
Closed user password_hash after =
    (find_where (λ u. u.id == user.id) after.users
      ≡ some (record user {
        password_hash = password_hash;
        session_version = user.session_version + 1;
      }))
    × (find_where (λ r. r.user_id == user.id && is_none r.revoked_at) after.refresh_sessions ≡ none)
    × (find_where (is_pending_of user.id) after.password_reset_tokens ≡ none)

found-update_where :
    (id : ℕ) (f : User → User) (keep : (u : User) → (f u).id ≡ u.id) (users : List User)
    {user : User}
    → find_where (λ u. u.id == id) users ≡ some user
    → find_where (λ u. u.id == id) (update_where (λ u. u.id == id) f users) ≡ some (f user)
found-update_where id f keep users {user} found =
    find_where-update_where (λ u. u.id == id) (λ u. u.id == id) f (λ u. ap (λ k. k == id) (keep u))
      users
    ∙ rw (found, find_where_self (λ u. u.id == id) users found) refl

reset_user-Closed :
    (user : User) (password_hash : Text) (db : Db)
    → find_where (λ u. u.id == user.id) db.users ≡ some user
    → Closed user password_hash (reset_user user password_hash db)
unfolding reset_user set_password_hash bump_session_version revoke_refresh_sessions use_up_tokens
    write_audit is_pending_of
reset_user-Closed user password_hash db found =
    let set = λ (u : User). record u { password_hash = password_hash } in
    let bump = λ (u : User). record u { session_version = user.session_version + 1 } in
    let same = λ (u : User). u.id == user.id in
    (
      found-update_where user.id bump (λ _. refl) (update_where same set db.users)
          (found-update_where user.id set (λ _. refl) db.users found),
      find_where-update_where_none (λ r. r.user_id == user.id && is_none r.revoked_at) _
          (λ r t. ground arith) db.refresh_sessions,
      find_where-update_where_none (is_pending_of user.id) _ (λ t h. ground arith)
          db.password_reset_tokens,
    )

live_user-same :
    (found : Option User) {user live : User}
    → found ≡ some user
    → live_user found ≡ some live
    → user ≡ live
live_user-same found {user} {live} e l = elim (Bool-cases user.is_active) [
  | inl on ↦ cc (rw (e, on) at l)
  | inr off ↦ absurd (cc (rw (e, off) at l))
]

-- A password reset that succeeds leaves its user, whom the link was issued to, with the new password and
-- the next version of the session, with no refresh session that is still open and no link that is still
-- unused. A refresh token that carries the version that the user had before, or an older one, is refused
-- when it is presented in that state, at any time.
pub reset_password_signs_out :
    (limiter : RateLimiter) (max : ℕ) (hash_token hash_password : Text → Text) (raw new : Text)
    (db : Db) (owner : PasswordResetToken) (user : User) {at' : ℕ} {after : Db}
    → find_where (has_hash (hash_token raw)) db.password_reset_tokens ≡ some owner
    → find_where (λ u. u.id == owner.user_id) db.users ≡ some user
    → reset_password limiter max hash_token hash_password raw new db ≡ (ok at', after)
    → (reader : TokenReader) (next : NextToken) (token : Text) (now : ℕ) {claims : Claims}
    → reader.decode_token now token ≡ some claims
    → claims.sub ≡ user.id
    → claims.sv ≤ user.session_version
    → Closed user (hash_password new) after
      × ((refresh reader next (some token) (record after { now = now })).0 ≡ err unauthenticated)
unfolding mark_used
reset_password_signs_out limiter max hash_token hash_password raw new db owner user {at'} {after}
      owned found e reader next token now {claims} decoded mine old =
    let r = reset_password-Reset limiter max hash_token hash_password raw new db e in
    let c = consume-Redeemed hash_token raw db r.consumed in
    let same_owner : c.owner ≡ owner = cc (sym c.owned ∙ owned) in
    let same_user : user ≡ r.user =
      live_user-same (find_where (λ u. u.id == owner.user_id) db.users) found (
        subst (λ o. live_user (find_where (λ u. u.id == o.user_id) db.users) ≡ some r.user)
          same_owner c.live) in
    let own : find_where (λ u. u.id == user.id) db.users ≡ some user =
      subst (λ k. find_where (λ u. u.id == k) db.users ≡ some user)
        (sym (
          ==→eq user.id owner.user_id
            (find_where_self (λ u. u.id == owner.user_id) db.users found)))
        found in
    let closed =
      subst (λ (d : Db). Closed user (hash_password new) d)
        (ap (λ (u : User). reset_user u (hash_password new) (mark_used r.token db)) same_user
          ∙ ap (λ d. reset_user r.user (hash_password new) d) c.saved
          ∙ r.saved)
        (reset_user-Closed user (hash_password new) (mark_used r.token db) own) in
    (
      closed,
      refresh-outdated reader next token (record after { now = now }) claims
          (record user {
            password_hash = hash_password new;
            session_version = user.session_version + 1;
          })
          decoded
          (subst
            (λ k.
              find_where (λ u. u.id == k) after.users
              ≡ some (record user {
                password_hash = hash_password new;
                session_version = user.session_version + 1;
              }))
            (sym mine) closed.0)
          (ground arith),
    )
