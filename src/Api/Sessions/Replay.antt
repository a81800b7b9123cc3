-- ===== src/Api/Sessions/Replay.antt =====
-- auth.py, `refresh`: what a refresh token that is presented again leads to.
use nextballup.Prelude.{
  ℕ, ◌+◌, ◌≡◌, refl, sym, ◌∙◌, subst, true, false, ◌&&◌, some, arith, ◌==◌, ==→eq, ==_refl, inl,
  inr, Bool-cases, is_some, find_where, find_where_self, find_where-update_where,
}
use nextballup.Core.Text.{Text, is_empty}
use nextballup.Db.{Db, User, RefreshSession, write_audit}
use nextballup.Api.Result.{ok, err}
use nextballup.Api.Sessions.{
  Claims, TokenReader, NextToken, unauthenticated, is_session_of, check_session, session_of_user,
  user_from_refresh_token, settle_refresh, refresh, refresh_failed, bump_session_version,
  revoke_refresh_sessions,
}
use nextballup.Api.Sessions.Rotation.{refresh-Rotated, rotate-session, rotate-users}

-- A token whose session is revoked is refused, and its user's version moves on.
refresh-replayed :
    (reader : TokenReader) (next : NextToken) (token : Text) (db : Db) (claims : Claims)
    (user : User) (s : RefreshSession)
    → is_empty token ≡ false
    → reader.decode_token db.now token ≡ some claims
    → find_where (λ u. u.id == claims.sub) db.users ≡ some user
    → (user.is_active && claims.sv == user.session_version) ≡ true
    → find_where (is_session_of user.id (reader.hash_refresh_jti claims.jti)) db.refresh_sessions
      ≡ some s
    → is_some s.revoked_at ≡ true
    → (refresh reader next (some token) db).0 ≡ err unauthenticated
      × (find_where (λ u. u.id == user.id) (refresh reader next (some token) db).1.users
          ≡ some (record user { session_version = user.session_version + 1 }))
unfolding refresh user_from_refresh_token session_of_user check_session settle_refresh
    refresh_failed bump_session_version revoke_refresh_sessions write_audit
refresh-replayed reader next token db claims user s f d o v found used =
    rw
      (
        f, user_from_refresh_token, d, o, session_of_user, v, found, check_session, used,
        settle_refresh,
      )
      (
        refl,
        find_where-update_where (λ u. u.id == user.id) (λ u. u.id == user.id)
              (λ u. record u { session_version = user.session_version + 1 }) (λ _. refl) db.users
            ∙ rw
                (
                  subst (λ k. find_where (λ u. u.id == k) db.users ≡ some user)
                      (sym (
                        ==→eq user.id claims.sub
                          (find_where_self (λ u. u.id == claims.sub) db.users o)))
                      o,
                  ==_refl user.id,
                )
                refl,
      )

pub refresh-outdated :
    (reader : TokenReader) (next : NextToken) (token : Text) (db : Db) (claims : Claims)
    (user : User)
    → reader.decode_token db.now token ≡ some claims
    → find_where (λ u. u.id == claims.sub) db.users ≡ some user
    → (user.is_active && claims.sv == user.session_version) ≡ false
    → (refresh reader next (some token) db).0 ≡ err unauthenticated
unfolding refresh user_from_refresh_token session_of_user settle_refresh
refresh-outdated reader next token db claims user d o v = elim (Bool-cases (is_empty token)) [
  | inl t ↦ rw t refl
  | inr f ↦ rw (f, user_from_refresh_token, d, o, session_of_user, v) refl
]

-- A refresh token rotates at most once: after `refresh` accepted a token, the same token, presented
-- again in the state that this left while it still reads as the same claims, is refused, and in the
-- state that this leaves in turn a token with the claims of the successor that the first call handed
-- out is refused as well, at any time.
pub refresh_replay :
    (reader : TokenReader) (next : NextToken) (token : Text) (db : Db) {c : Claims} {after : Db}
    → refresh reader next (some token) db ≡ (ok c, after)
    → (next' next'' : NextToken) (now' now'' : ℕ) (successor : Text)
    → reader.decode_token now' token ≡ reader.decode_token db.now token
    → reader.decode_token now'' successor ≡ some c
    → ((refresh reader next' (some token) (record after { now = now' })).0 ≡ err unauthenticated)
      × ((refresh reader next''
            (some successor)
            (record (refresh reader next' (some token) (record after { now = now' })).1 {
              now = now'';
            })).0
          ≡ err unauthenticated)
refresh_replay reader next token db {c} {after} e next' next'' now' now'' successor still k =
    let r = refresh-Rotated reader next token db e in
    let kept = rotate-users reader next r.user r.consumed db r.rotation in
    let again =
      rotate-session reader next r.user r.consumed (reader.hash_refresh_jti r.claims.jti) db
        r.session r.rotation in
    let replay =
      refresh-replayed reader next' token (record after { now = now' }) r.claims r.user again.0
        r.present (still ∙ r.decoded)
        (subst (λ us. find_where (λ u. u.id == r.claims.sub) us ≡ some r.user) (sym kept.0) r.owner)
        r.current again.1 again.2 in
    (
      replay.0,
      refresh-outdated reader next'' successor
          (record (refresh reader next' (some token) (record after { now = now' })).1 {
            now = now'';
          })
          c (record r.user { session_version = r.user.session_version + 1 }) k
          (subst
            (λ k.
              find_where (λ u. u.id == k)
                (refresh reader next' (some token) (record after { now = now' })).1.users
              ≡ some (record r.user { session_version = r.user.session_version + 1 }))
            (sym kept.1.0) replay.1)
          (let same = kept.1.1 in ground arith),
    )
