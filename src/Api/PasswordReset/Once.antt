-- ===== src/Api/PasswordReset/Once.antt =====
-- password_reset.py: a reset link works once, and a new link ends the older ones of its user.
use mathlib.Core.Option
use nextballup.Prelude.{
  ℕ, ◌≡◌, refl, sym, ap, ◌∙◌, subst, Bool, true, false, ◌&&◌, ◌||◌, Option, some, arith, ◌==◌,
  ==_refl, ltb, leb, inl, inr, Bool-cases, Option-cases, if◌then◌else◌, is_some, find_where,
  find_where-update_where, length,
}
use nextballup.Core.Text.{Text, is_empty}
use nextballup.Db.{Db, User, PasswordResetToken}
use nextballup.Api.PasswordReset.{
  Rejection, Consumption, mark_used, live_user, consume_token, has_hash, consume_hash,
  consume_password_reset_token,
}

-- A token that is consumed, and what the handler found.
pub record Redeemed (hash : Text) (db : Db) (user : User) (token : PasswordResetToken) (after : Db)
    : Type 0 where
  pub owner : PasswordResetToken
  pub owned : find_where (has_hash hash) db.password_reset_tokens ≡ some owner
  pub locked :
      find_where (λ t. has_hash hash t && t.user_id == owner.user_id) db.password_reset_tokens
      ≡ some token
  pub unused : is_some token.used_at ≡ false
  pub unexpired : leb token.expires_at db.now ≡ false
  pub live : live_user (find_where (λ u. u.id == owner.user_id) db.users) ≡ some user
  pub saved : mark_used token db ≡ after

consume_token-Redeemed :
    (token : PasswordResetToken) (owner : Option User) (db : Db) {user : User}
    {t : PasswordResetToken} {after : Db}
    → consume_token token owner db ≡ (Consumption.consumed user t, after)
    → (token ≡ t)
      × ((is_some token.used_at ≡ false)
          × ((leb token.expires_at db.now ≡ false)
              × ((live_user owner ≡ some user) × (mark_used token db ≡ after))))
unfolding consume_token
consume_token-Redeemed token owner db {user} {t} {after} e =
    elim (Bool-cases (is_some token.used_at)) [
      | inl u ↦ absurd (cc (ap (λ p. p.0) (rw u at e)))
      | inr n ↦ elim (Bool-cases (leb token.expires_at db.now)) [
        | inl x ↦ absurd (cc (ap (λ p. p.0) (rw (n, x) at e)))
        | inr y ↦ elim (Option-cases (live_user owner)) [
          | inl z ↦ absurd (cc (ap (λ p. p.0) (rw (n, y, z) at e)))
          | inr (w, l) ↦
              let end = rw (n, y, l) at e in
              let same : Consumption.consumed w token ≡ Consumption.consumed user t =
                ap (λ p. p.0) end in
              let who : w ≡ user = cc same in
              (cc same, (n, (y, (l ∙ ap some who, ap (λ p. p.1) end))))
        ]
      ]
    ]

pub consume-Redeemed :
    (hash_token : Text → Text) (raw : Text) (db : Db) {user : User} {token : PasswordResetToken}
    {after : Db}
    → consume_password_reset_token hash_token raw db ≡ (Consumption.consumed user token, after)
    → Redeemed (hash_token raw) db user token after
unfolding consume_password_reset_token consume_hash
consume-Redeemed hash_token raw db {user} {token} {after} e =
    elim (Bool-cases (is_empty raw || ltb 256 (length raw))) [
      | inl t ↦ absurd (cc (ap (λ p. p.0) (rw t at e)))
      | inr f ↦
          elim (Option-cases (find_where (has_hash (hash_token raw)) db.password_reset_tokens)) [
            | inl n ↦ absurd (cc (ap (λ p. p.0) (rw (f, n, consume_hash) at e)))
            | inr (owner, o) ↦
                elim (Option-cases (
                  find_where (λ t. has_hash (hash_token raw) t && t.user_id == owner.user_id)
                    db.password_reset_tokens)) [
                      | inl n ↦ absurd (cc (ap (λ p. p.0) (rw (f, o, n, consume_hash) at e)))
                      | inr (found, g) ↦
                          let facts =
                            consume_token-Redeemed found
                              (find_where (λ u. u.id == owner.user_id) db.users) db
                              (rw (f, o, g, consume_hash) at e) in
                          record {
                            owner = owner;
                            owned = o;
                            locked = g ∙ ap some facts.0;
                            unused = rw (← facts.0) facts.1.0;
                            unexpired = rw (← facts.0) facts.1.1.0;
                            live = facts.1.1.1.0;
                            saved = rw (← facts.0) facts.1.1.1.1;
                          }
                    ]
          ]
    ]

consume-sized :
    (hash_token : Text → Text) (raw : Text) (db : Db) {user : User} {token : PasswordResetToken}
    {after : Db}
    → consume_password_reset_token hash_token raw db ≡ (Consumption.consumed user token, after)
    → (is_empty raw || ltb 256 (length raw)) ≡ false
unfolding consume_password_reset_token
consume-sized hash_token raw db e = elim (Bool-cases (is_empty raw || ltb 256 (length raw))) [
  | inl t ↦ absurd (cc (ap (λ p. p.0) (rw t at e)))
  | inr f ↦ f
]

-- A search that does not look at `used_at` finds the marked row.
find_where-mark_used :
    (p : PasswordResetToken → Bool) (token : PasswordResetToken) (db : Db) {t : PasswordResetToken}
    → ((x : PasswordResetToken) (u : Option ℕ) → p (record x { used_at = u }) ≡ p x)
    → find_where p db.password_reset_tokens ≡ some t
    → find_where p (mark_used token db).password_reset_tokens
      ≡ some (if t.id == token.id then record t { used_at = some db.now } else t)
unfolding mark_used
find_where-mark_used p token db blind e =
    find_where-update_where p (λ t. t.id == token.id) (λ t. record t { used_at = some db.now })
      (λ x. blind x (some db.now)) db.password_reset_tokens
    ∙ ap (Option.map (λ t. if t.id == token.id then record t { used_at = some db.now } else t)) e

consume_hash-used :
    (hash : Text) (db : Db) {owner token : PasswordResetToken} (user_id : ℕ)
    → find_where (has_hash hash) db.password_reset_tokens ≡ some owner
    → owner.user_id ≡ user_id
    → find_where (λ t. has_hash hash t && t.user_id == user_id) db.password_reset_tokens
      ≡ some token
    → is_some token.used_at ≡ true
    → consume_hash hash db ≡ (Consumption.rejected Rejection.used, db)
unfolding consume_hash consume_token
consume_hash-used hash db {owner} {token} user_id o same t used =
    let found : find_where (λ x. has_hash hash x && x.user_id == owner.user_id)
          db.password_reset_tokens
        ≡ some token =
      subst
        (λ k.
          find_where (λ x. has_hash hash x && x.user_id == k) db.password_reset_tokens ≡ some token)
        (sym same) t in
    rw (o, consume_hash, found, used, consume_token) refl

-- A link that was used is turned down from then on: the same token, given again at any later time, is
-- answered as used, and nothing changes.
pub consume_password_reset_token_once :
    (hash_token : Text → Text) (raw : Text) (db : Db) {user : User} {token : PasswordResetToken}
    {after : Db}
    → consume_password_reset_token hash_token raw db ≡ (Consumption.consumed user token, after)
    → (later : ℕ)
    → consume_password_reset_token hash_token raw (record after { now = later })
      ≡ (Consumption.rejected Rejection.used, record after { now = later })
unfolding consume_password_reset_token has_hash
consume_password_reset_token_once hash_token raw db {user} {token} {after} e later =
    let hash = hash_token raw in
    let r = consume-Redeemed hash_token raw db e in
    let owner = find_where-mark_used (has_hash hash) token db (λ x u. refl) r.owned in
    let marked =
      find_where-mark_used (λ t. has_hash hash t && t.user_id == r.owner.user_id) token db
        (λ x u. refl) r.locked in
    rw (consume-sized hash_token raw db e) (
      subst
        (λ d.
          consume_hash hash (record d { now = later })
          ≡ (Consumption.rejected Rejection.used, record d { now = later }))
        r.saved
        (consume_hash-used hash (record (mark_used token db) { now = later }) r.owner.user_id owner
          (ground arith) marked (rw (==_refl token.id) refl)))
