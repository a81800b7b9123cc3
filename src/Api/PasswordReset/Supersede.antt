-- ===== src/Api/PasswordReset/Supersede.antt =====
-- password_reset.py, `issue_password_reset_token`: that a new link ends the older ones.
use mathlib.Core.Option
use nextballup.Prelude.{
  ℕ, ◌+◌, ◌*◌, ◌≡◌, refl, sym, ap, ◌∙◌, Bool, true, ◌&&◌, some, List, [], ◌∷◌, arith, ◌==◌, ==→eq,
  ==_refl, inl, inr, Bool-cases, Option-cases, is_some, find_where, find_where_self, find_where-All,
  update_where, All, and_true,
}
use nextballup.Core.Text.{Text, text_eq_sound}
use nextballup.Db.{Db, User, PasswordResetToken}
use nextballup.Api.PasswordReset.{
  is_pending_of, new_token, issue_password_reset_token, Consumption, has_hash,
  consume_password_reset_token,
}
use nextballup.Api.PasswordReset.Once.{consume-Redeemed}

-- No token of the user is left unused.
abbrev Spent : ℕ → PasswordResetToken → Type 0
Spent user_id t = (t.user_id == user_id) ≡ true → is_some t.used_at ≡ true

superseded-Spent :
    (user_id now : ℕ) (ts : List PasswordResetToken)
    → All
        (Spent user_id)
        (update_where (is_pending_of user_id) (λ t. record t { used_at = some now }) ts)
unfolding update_where is_pending_of
superseded-Spent user_id now [] = tt
superseded-Spent user_id now (t ∷ ts) = elim (Bool-cases (is_pending_of user_id t)) [
  | inl p ↦ rw p ((λ _. refl), superseded-Spent user_id now ts)
  | inr n ↦ rw n ((λ own. ground (arith, rw own at n)), superseded-Spent user_id now ts)
]

-- The tokens after an issue: the new one, and the others, none of which is unused.
record Issued (hash : Text) (user_id : ℕ) (after : Db) : Type 0 where
  fresh : PasswordResetToken
  others : List PasswordResetToken
  hashed : fresh.token_hash ≡ hash
  table : after.password_reset_tokens ≡ (fresh ∷ others)
  spent : All (Spent user_id) others

issue-Issued :
    (hash_token : Text → Text) (ttl user_id : ℕ) (raw : Text) (new_id : ℕ) (db : Db) {after : Db}
    → issue_password_reset_token hash_token ttl user_id raw new_id db ≡ some after
    → Issued (hash_token raw) user_id after
unfolding issue_password_reset_token new_token
issue-Issued hash_token ttl user_id raw new_id db {after} e =
    elim (Option-cases (find_where (λ u. u.id == user_id) db.users)) [
      | inl n ↦ absurd (cc (rw (n, issue_password_reset_token) at e))
      | inr (user, f) ↦ elim (Bool-cases user.is_active) [
        | inr off ↦ absurd (cc (rw (f, off, issue_password_reset_token) at e))
        | inl on ↦
            let key = ==→eq user.id user_id (find_where_self (λ u. u.id == user_id) db.users f) in
            let same =
              Option.some-injective _ after (rw (f, on, issue_password_reset_token) at e) in
            record {
              fresh = new_token new_id user.id (hash_token raw) (db.now + ttl * 60);
              others =
                  update_where (is_pending_of user.id) (λ t. record t { used_at = some db.now })
                    db.password_reset_tokens;
              hashed = refl;
              table = ap (λ d. d.password_reset_tokens) (sym same);
              spent = rw key (superseded-Spent user_id db.now db.password_reset_tokens);
            }
      ]
    ]

-- After a new link was issued to a user, the only link of that user that can be consumed is the new one.
pub issue_password_reset_token_supersedes :
    (hash_token : Text → Text) (ttl user_id : ℕ) (raw : Text) (new_id : ℕ) (db : Db) {after : Db}
    → issue_password_reset_token hash_token ttl user_id raw new_id db ≡ some after
    → (other : Text) (later : ℕ) {user : User} {token : PasswordResetToken} {last : Db}
    → consume_password_reset_token hash_token other (record after { now = later })
      ≡ (Consumption.consumed user token, last)
    → token.user_id ≡ user_id
    → hash_token other ≡ hash_token raw
unfolding find_where has_hash
issue_password_reset_token_supersedes hash_token ttl user_id raw new_id db {after} issued other
      later {user} {token} e whose =
    let r = consume-Redeemed hash_token other (record after { now = later }) e in
    let i = issue-Issued hash_token ttl user_id raw new_id db issued in
    let hash = hash_token other in
    let p : PasswordResetToken → Bool = λ t. has_hash hash t && t.user_id == r.owner.user_id in
    let found : find_where p (i.fresh ∷ i.others) ≡ some token = rw i.table at r.locked in
    elim (Bool-cases (p i.fresh)) [
      | inl t ↦ sym (text_eq_sound i.fresh.token_hash hash (and_true _ _ t).0) ∙ i.hashed
      | inr n ↦
          let row = find_where-All (Spent user_id) p i.others i.spent (rw n at found) in
          absurd (cc (row.1 (rw whose (==_refl user_id)), r.unused))
    ]
