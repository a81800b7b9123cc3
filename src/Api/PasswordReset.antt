-- ===== src/Api/PasswordReset.antt =====
-- apps/api/src/nextballup_api/password_reset.py: the tokens of a password reset. The SHA-256 of a
-- token is an argument, and so are the random token and the key of a new row.
pub mod Once
pub mod Supersede
pub mod Confirm
pub mod SignedOut
pub mod Request
pub mod Undelivered
use mathlib.Core.Option
use nextballup.Prelude.{
  ℕ, ◌+◌, ◌*◌, Bool, true, false, not, ◌&&◌, ◌||◌, Option, none, some, List, [], ◌∷◌, ◌==◌, ltb,
  leb, if◌then◌else◌, is_some, is_none, find_where, update_where, length,
}
use nextballup.Core.Text.{Text, text_eq, is_empty}
use nextballup.Db.{Db, User, PasswordResetToken}

-- The tokens of the user that are not used yet.
unfoldable pub is_pending_of : ℕ → PasswordResetToken → Bool
is_pending_of user_id t = t.user_id == user_id && is_none t.used_at

unfoldable pub new_token : ℕ → ℕ → Text → ℕ → PasswordResetToken
new_token id user_id token_hash expires_at = record {
  id = id;
  user_id = user_id;
  token_hash = token_hash;
  expires_at = expires_at;
  used_at = none;
}

-- A user who is not there or not active gets no token: ValueError. The newest row stands first.
unfoldable pub issue_password_reset_token : (Text → Text) → ℕ → ℕ → Text → ℕ → Db → Option Db
unfolding find_where update_where is_pending_of new_token
issue_password_reset_token hash_token ttl_minutes user_id raw_token new_id db =
    elim (find_where (λ u. u.id == user_id) db.users) [
      | none ↦ none
      | some user ↦
          if user.is_active
          then some (record db {
            password_reset_tokens =
                new_token new_id user.id (hash_token raw_token) (db.now + ttl_minutes * 60)
                ∷ update_where (is_pending_of user.id) (λ t. record t { used_at = some db.now })
                    db.password_reset_tokens;
          })
          else none
    ]

-- Why a token is turned down.
pub data Rejection : Type 0 where
  invalid used expired : Rejection

pub data Consumption : Type 0 where
  rejected : Rejection → Consumption
  consumed : User → PasswordResetToken → Consumption

-- The token's row is written back by its primary key.
unfoldable pub mark_used : PasswordResetToken → Db → Db
unfolding update_where
mark_used token db = record db {
  password_reset_tokens =
      update_where (λ t. t.id == token.id) (λ t. record t { used_at = some db.now })
        db.password_reset_tokens;
}

abbrev live_user : Option User → Option User
live_user none = none
live_user (some user) = if user.is_active then some user else none

unfoldable pub consume_token : PasswordResetToken → Option User → Db → Consumption × Db
unfolding mark_used
consume_token token user db =
    if is_some token.used_at
    then (Consumption.rejected Rejection.used, db)
    else if leb token.expires_at db.now
    then (Consumption.rejected Rejection.expired, db)
    else elim (live_user user) [
      | none ↦ (Consumption.rejected Rejection.invalid, mark_used token db)
      | some u ↦ (Consumption.consumed u token, mark_used token db)
    ]

unfoldable pub has_hash : Text → PasswordResetToken → Bool
unfolding text_eq
has_hash hash t = text_eq t.token_hash hash

-- The lookups: whose the token is, the user, and the token under the lock.
unfoldable pub consume_hash : Text → Db → Consumption × Db
unfolding find_where has_hash consume_token
consume_hash hash db = elim (find_where (has_hash hash) db.password_reset_tokens) [
  | none ↦ (Consumption.rejected Rejection.invalid, db)
  | some owner ↦
      elim (find_where (λ t. has_hash hash t && t.user_id == owner.user_id)
        db.password_reset_tokens) [
          | none ↦ (Consumption.rejected Rejection.invalid, db)
          | some token ↦ consume_token token (find_where (λ u. u.id == owner.user_id) db.users) db
        ]
]

unfoldable pub consume_password_reset_token : (Text → Text) → Text → Db → Consumption × Db
unfolding consume_hash
consume_password_reset_token hash_token raw_token db =
    if is_empty raw_token || ltb 256 (length raw_token)
    then (Consumption.rejected Rejection.invalid, db)
    else consume_hash (hash_token raw_token) db
