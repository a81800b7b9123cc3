-- ===== src/Api/Sessions/Rotation.antt =====
-- auth.py, `refresh`: what an accepted refresh token found, and what the rotation leaves.
use nextballup.Prelude.{
  ℕ, ◌≡◌, refl, sym, ap, ◌∙◌, subst, true, false, ◌&&◌, Option, some, ◌==◌, ==_refl, leb, inl, inr,
  Bool-cases, Option-cases, is_some, find_where, find_where_self, find_where-update_where,
  any_where, any_where-find_where, and_true,
}
use nextballup.Core.Text.{Text, codes, text_eq, text_eq_sound, is_empty}
use nextballup.Db.{Db, User, RefreshSession}
use nextballup.Api.Result.{ok}
use nextballup.Api.Sessions.{
  Claims, TokenReader, NextToken, is_session_of, check_session, session_of_user,
  user_from_refresh_token, rotate, settle_refresh, refresh, revoke_session,
}

-- The rows that a rotation went by, and the state it leaves.
pub record Rotated (reader : TokenReader) (next : NextToken) (token : Text) (db : Db) (c : Claims)
    (after : Db) : Type 0 where
  pub claims : Claims
  pub user : User
  pub consumed : RefreshSession
  pub present : is_empty token ≡ false
  pub decoded : reader.decode_token db.now token ≡ some claims
  pub owner : find_where (λ u. u.id == claims.sub) db.users ≡ some user
  pub current : (user.is_active && claims.sv == user.session_version) ≡ true
  pub session :
      find_where (is_session_of user.id (reader.hash_refresh_jti claims.jti)) db.refresh_sessions
      ≡ some consumed
  pub rotation : rotate reader next user consumed db ≡ (ok c, after)

settle_check :
    (reader : TokenReader) (next : NextToken) (user : User) (consumed : RefreshSession) (db : Db)
    {c : Claims} {after : Db}
    → settle_refresh reader next (check_session user consumed db) ≡ (ok c, after)
    → rotate reader next user consumed db ≡ (ok c, after)
unfolding settle_refresh check_session
settle_check reader next user consumed db {c} {after} e =
    elim (Bool-cases (is_some consumed.revoked_at)) [
      | inl t ↦ absurd (cc (ap (λ p. p.0) (rw t at e)))
      | inr n ↦ elim (Bool-cases (leb consumed.expires_at db.now)) [
        | inl t ↦ absurd (cc (ap (λ p. p.0) (rw (n, t) at e)))
        | inr m ↦ rw (n, m) at e
      ]
    ]

pub refresh-Rotated :
    (reader : TokenReader) (next : NextToken) (token : Text) (db : Db) {c : Claims} {after : Db}
    → refresh reader next (some token) db ≡ (ok c, after)
    → Rotated reader next token db c after
unfolding refresh user_from_refresh_token session_of_user settle_refresh
refresh-Rotated reader next token db {c} {after} e = elim (Bool-cases (is_empty token)) [
  | inl t ↦ absurd (cc (ap (λ p. p.0) (rw t at e)))
  | inr f ↦ elim (Option-cases (reader.decode_token db.now token)) [
    | inl n ↦ absurd (cc (ap (λ p. p.0) (rw (f, user_from_refresh_token, n) at e)))
    | inr (claims, d) ↦ elim (Option-cases (find_where (λ u. u.id == claims.sub) db.users)) [
      | inl n ↦ absurd (cc (ap (λ p. p.0) (rw (f, user_from_refresh_token, d, n) at e)))
      | inr (user, o) ↦ elim (Bool-cases (user.is_active && claims.sv == user.session_version)) [
        | inr n ↦
            absurd
              (cc (ap (λ p. p.0) (rw (f, user_from_refresh_token, d, o, session_of_user, n) at e)))
        | inl v ↦
            elim (Option-cases (
              find_where (is_session_of user.id (reader.hash_refresh_jti claims.jti))
                db.refresh_sessions)) [
                  | inl n ↦ absurd (
                      cc (
                        ap (λ p. p.0)
                          (rw (f, user_from_refresh_token, d, o, session_of_user, v, n) at e)))
                  | inr (consumed, s) ↦ record {
                    claims = claims;
                    user = user;
                    consumed = consumed;
                    present = f;
                    decoded = d;
                    owner = o;
                    current = v;
                    session = s;
                    rotation =
                        settle_check reader next user consumed db
                          (rw (f, user_from_refresh_token, d, o, session_of_user, v, s) at e);
                  }
                ]
      ]
    ]
  ]
]

abbrev pub session_after : RefreshSession → Option ℕ → Db → RefreshSession
session_after r replacement db = record r {
  revoked_at = some db.now;
  revoked_reason = some (codes "rotated");
  replaced_by_session_id = replacement;
}

revoke_session-session :
    (user_id : ℕ) (hash : Text) (r : RefreshSession) (replacement : Option ℕ) (db : Db)
    → find_where (is_session_of user_id hash) db.refresh_sessions ≡ some r
    → find_where
        (is_session_of user_id hash)
        (revoke_session r "rotated" replacement db).refresh_sessions
      ≡ some (session_after r replacement db)
unfolding revoke_session is_session_of
revoke_session-session user_id hash r replacement db e =
    find_where-update_where (is_session_of user_id hash) (λ x. x.id == r.id)
      (λ x. session_after x replacement db) (λ _. refl) db.refresh_sessions
    ∙ rw (e, ==_refl r.id) refl

-- The row of the token that was used is found again, as revoked, below the row of its successor.
pub rotate-session :
    (reader : TokenReader) (next : NextToken) (user : User) (consumed : RefreshSession)
    (hash : Text) (db : Db) {c : Claims} {after : Db}
    → find_where (is_session_of user.id hash) db.refresh_sessions ≡ some consumed
    → rotate reader next user consumed db ≡ (ok c, after)
    → (s : RefreshSession) × (find_where (is_session_of user.id hash) after.refresh_sessions
        ≡ some s)
      × (is_some s.revoked_at ≡ true)
unfolding rotate revoke_session is_session_of find_where
rotate-session reader next user consumed hash db {c} {after} found e =
    elim (Bool-cases (
      any_where (λ r. text_eq r.jti_hash (reader.hash_refresh_jti next.jti)) db.refresh_sessions)) [
        | inl t ↦ absurd (cc (ap (λ p. p.0) (rw t at e)))
        | inr n ↦ elim (Bool-cases (text_eq (reader.hash_refresh_jti next.jti) hash)) [
          | inl same ↦
              let own =
                (and_true _ _
                  (find_where_self (is_session_of user.id hash) db.refresh_sessions found)).1 in
              let taken =
                any_where-find_where (is_session_of user.id hash)
                  (λ r. text_eq r.jti_hash (reader.hash_refresh_jti next.jti)) db.refresh_sessions
                  found
                  (subst (λ h. text_eq consumed.jti_hash h ≡ true)
                    (sym (text_eq_sound (reader.hash_refresh_jti next.jti) hash same)) own) in
              let clash : true ≡ false = sym taken ∙ n in absurd (cc clash)
          | inr other ↦ (
            session_after consumed (some next.id) db,
            subst
                (λ d.
                  find_where (is_session_of user.id hash) d.refresh_sessions
                  ≡ some (session_after consumed (some next.id) db))
                (ap (λ p. p.1) (rw n at e))
                (rw (other, ==_refl user.id)
                  (revoke_session-session user.id hash consumed (some next.id) db found)),
            refl,
          )
        ]
      ]

pub rotate-users :
    (reader : TokenReader) (next : NextToken) (user : User) (consumed : RefreshSession) (db : Db)
    {c : Claims} {after : Db}
    → rotate reader next user consumed db ≡ (ok c, after)
    → (after.users ≡ db.users) × ((c.sub ≡ user.id) × (c.sv ≡ user.session_version))
unfolding rotate revoke_session
rotate-users reader next user consumed db {c} {after} e =
    elim (Bool-cases (
      any_where (λ r. text_eq r.jti_hash (reader.hash_refresh_jti next.jti)) db.refresh_sessions)) [
        | inl t ↦ absurd (cc (ap (λ p. p.0) (rw t at e)))
        | inr n ↦
            let end = rw n at e in
            let cookie = ap (λ p. p.0) end in
            let issued : record { sub = user.id; jti = next.jti; sv = user.session_version } ≡ c =
              cc cookie in
            (
              sym (ap (λ p. p.1.users) end),
              (sym (ap (λ x. x.sub) issued), sym (ap (λ x. x.sv) issued)),
            )
      ]
