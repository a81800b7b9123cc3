-- ===== src/Api/Sessions.antt =====
-- apps/api/src/nextballup_api/routers/auth.py: the rotation of refresh tokens, `refresh` with
-- `_user_from_refresh_token`, and `logout`. What a token decodes to, the hash of its id, and the id and
-- the expiry of the next token are arguments. A missing resource type is the empty text.
pub mod Rotation
pub mod Replay
use Prim.Native.String.{String}
use mathlib.Core.Option
use nextballup.Prelude.{
  ℕ, suc, ◌+◌, Bool, true, false, not, ◌&&◌, Option, none, some, List, [], ◌∷◌, ◌==◌, leb,
  if◌then◌else◌, is_some, is_none, any_where, find_where, update_where,
}
use nextballup.Core.Text.{Text, codes, text_eq, is_empty}
use nextballup.Core.Errors.{AppError, ErrorClass, ErrorCode, AuditAction, code_value}
use nextballup.Core.Json.{Json, Fields}
use nextballup.Db.{Db, User, RefreshSession, AuditLog, write_audit}
use nextballup.Api.Result.{Result, ok, err, app_error}

-- The claims of a refresh token: the user, the id of the token and the version of the session.
pub record Claims : Type 0 where
  pub sub : ℕ
  pub jti : Text
  pub sv : ℕ

-- What a token reads as at a time: none where it does not decode or has expired or its claims are
-- malformed, which ends in one error.
pub record TokenReader : Type 0 where
  pub decode_token : ℕ → Text → Option Claims
  pub hash_refresh_jti : Text → Text

-- The next token of the user.
pub record NextToken : Type 0 where
  pub id : ℕ
  pub jti : Text
  pub expires_at : ℕ

abbrev pub unauthenticated : AppError
unauthenticated = app_error ErrorClass.authentication_error ErrorCode.unauthenticated

-- `_revoke_refresh_sessions`
unfoldable pub revoke_refresh_sessions : ℕ → String → Db → Db
unfolding update_where
revoke_refresh_sessions user_id reason db = record db {
  refresh_sessions =
      update_where (λ r. r.user_id == user_id && is_none r.revoked_at)
        (λ r. record r { revoked_at = some db.now; revoked_reason = some (codes reason) })
        db.refresh_sessions;
}

-- `user.session_version += 1`, on the row by its primary key.
unfoldable pub bump_session_version : User → Db → Db
unfolding update_where
bump_session_version user db = record db {
  users =
      update_where (λ u. u.id == user.id)
        (λ u. record u { session_version = user.session_version + 1 }) db.users;
}

unfoldable pub revoke_session : RefreshSession → String → Option ℕ → Db → Db
unfolding update_where
revoke_session refresh_session reason replacement db = record db {
  refresh_sessions =
      update_where (λ r. r.id == refresh_session.id)
        (λ r. record r {
          revoked_at = some db.now;
          revoked_reason = some (codes reason);
          replaced_by_session_id = replacement;
        })
        db.refresh_sessions;
}

unfoldable pub is_session_of : ℕ → Text → RefreshSession → Bool
unfolding text_eq
is_session_of user_id hash r = r.user_id == user_id && text_eq r.jti_hash hash

-- The checks on the session's row. A token that was used before revokes all sessions of its user.
unfoldable pub check_session : User → RefreshSession → Db → Result (User × RefreshSession) × Db
unfolding revoke_refresh_sessions bump_session_version revoke_session
check_session user refresh_session db =
    if is_some refresh_session.revoked_at
    then (
      err unauthenticated,
      bump_session_version user (revoke_refresh_sessions user.id "replay_detected" db),
    )
    else if leb refresh_session.expires_at db.now
    then (
      err unauthenticated,
      revoke_session refresh_session "expired" refresh_session.replaced_by_session_id db,
    )
    else (ok (user, refresh_session), db)

unfoldable pub session_of_user :
    TokenReader → Claims → User → Db → Result (User × RefreshSession) × Db
unfolding find_where is_session_of check_session
session_of_user reader claims user db =
    if user.is_active && claims.sv == user.session_version
    then elim (find_where (is_session_of user.id (reader.hash_refresh_jti claims.jti))
        db.refresh_sessions) [
          | none ↦ (err unauthenticated, db)
          | some refresh_session ↦ check_session user refresh_session db
        ]
    else (err unauthenticated, db)

unfoldable pub user_from_refresh_token :
    TokenReader → Text → Db → Result (User × RefreshSession) × Db
unfolding find_where session_of_user
user_from_refresh_token reader token db = elim (reader.decode_token db.now token) [
  | none ↦ (err unauthenticated, db)
  | some claims ↦ elim (find_where (λ u. u.id == claims.sub) db.users) [
    | none ↦ (err unauthenticated, db)
    | some user ↦ session_of_user reader claims user db
  ]
]

abbrev pub user_event : AuditAction → Option User → Fields → AuditLog
user_event action none extra = record {
  action = action;
  actor_user_id = none;
  resource_type = "";
  resource_id = none;
  team_id = none;
  extra = extra;
}
user_event action (some user) extra = record {
  action = action;
  actor_user_id = some user.id;
  resource_type = "user";
  resource_id = some user.id;
  team_id = none;
  extra = extra;
}

unfoldable pub refresh_failed : Db → Db
unfolding write_audit
refresh_failed db =
    write_audit
      (user_event AuditAction.user_refresh_failed none
        (Fields.field "reason" (Json.str (code_value ErrorCode.unauthenticated)) Fields.end))
      db

abbrev pub new_session : TokenReader → User → NextToken → RefreshSession
new_session reader user next = record {
  id = next.id;
  user_id = user.id;
  jti_hash = reader.hash_refresh_jti next.jti;
  expires_at = next.expires_at;
  revoked_at = none;
  revoked_reason = none;
  replaced_by_session_id = none;
}

-- The rotation. An id of a token that is there already breaks the unique key, and the request ends
-- with a rollback. The newest row stands first.
unfoldable pub rotate : TokenReader → NextToken → User → RefreshSession → Db → Result Claims × Db
unfolding any_where text_eq revoke_session write_audit
rotate reader next user consumed db =
    if any_where (λ r. text_eq r.jti_hash (reader.hash_refresh_jti next.jti)) db.refresh_sessions
    then (err (app_error ErrorClass.runtime_error ErrorCode.internal_error), db)
    else (let revoked = revoke_session consumed "rotated" (some next.id) db in
        (
          ok (record { sub = user.id; jti = next.jti; sv = user.session_version }),
          write_audit (user_event AuditAction.user_refresh_succeeded (some user) Fields.end)
              (record revoked {
                refresh_sessions = new_session reader user next ∷ revoked.refresh_sessions;
              }),
        ))

unfoldable pub settle_refresh :
    TokenReader → NextToken → Result (User × RefreshSession) × Db → Result Claims × Db
unfolding refresh_failed rotate
settle_refresh reader next (err e, db) = (err e, refresh_failed db)
settle_refresh reader next (ok (user, consumed), db) = rotate reader next user consumed db

-- The claims of the token that the cookie gets, and the state.
unfoldable pub refresh : TokenReader → NextToken → Option Text → Db → Result Claims × Db
unfolding refresh_failed settle_refresh user_from_refresh_token
refresh reader next none db = (err unauthenticated, refresh_failed db)
refresh reader next (some token) db =
    if is_empty token
    then (err unauthenticated, refresh_failed db)
    else settle_refresh reader next (user_from_refresh_token reader token db)

unfoldable pub logout : User → Db → Db
unfolding bump_session_version revoke_refresh_sessions write_audit
logout user db = bump_session_version user (
    revoke_refresh_sessions user.id "logout"
      (write_audit (user_event AuditAction.user_logout (some user) Fields.end) db))
