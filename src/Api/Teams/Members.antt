-- ===== src/Api/Teams/Members.antt =====
-- teams.py: whom `join_team` lets in, and what it keeps of the members and the invites.
use nextballup.Prelude.{
  ℕ, ◌+◌, ◌≤◌, ◌<◌, ◌≡◌, refl, sym, ◌∙◌, subst, Bool, true, false, ◌&&◌, Option, none, some, List,
  [], ◌∷◌, arith, ◌==◌, inl, inr, Bool-cases, update_where, All, All-map, All-both,
  any_where-false-All, or_false, sql_eq,
}
use nextballup.Core.Text.{Text}
use nextballup.Db.{Db, User, Team, TeamMembership, TeamInvite}
use nextballup.Api.Result.{ok}
use nextballup.Api.RateLimit.{RateLimiter}
use nextballup.Api.Teams.{is_open_team, membership_of}
use nextballup.Api.Teams.Outcome.{Admitted, joined, join_team-end}
use nextballup.Api.Teams.Join.{
  normalize_invite_code, team_role_allowed_for_user, team_of_code, invite_refusal, target_role,
  same_member, jersey_clash, seat_refusal, breaks_key, use_invite, join_team,
}

-- Two rows of one team are of two users and show two numbers.
abbrev Apart : TeamMembership → TeamMembership → Type 0
Apart m n =
    m.team_id ≡ n.team_id
    → ((m.user_id ≡ n.user_id → ⊥)
        × ((k : ℕ) → m.jersey_number ≡ some k → n.jersey_number ≡ some k → ⊥))

unfoldable pub MembersApart : List TeamMembership → Type 0
MembersApart [] = Unit
MembersApart (m ∷ ms) = All (Apart m) ms × MembersApart ms

-- No invite has more uses than it allows, and no two rows of a team are of one user or one number.
pub record TeamsOk (db : Db) : Type 0 where
  pub apart : MembersApart db.memberships
  pub within : All (λ i. i.uses ≤ i.max_uses) db.invites

-- The lock on the row of an invite with the code: other sessions leave it as it is.
abbrev pub Locked : Text → Db → Db → Type 0
Locked code before after =
    (invite : TeamInvite)
    → (team_of_code code before).1 ≡ some invite
    → All (λ i. (i.id == invite.id) ≡ true → i ≡ invite) after.invites

no_clash-jersey :
    (m n : TeamMembership)
    → m.team_id ≡ n.team_id
    → (k : ℕ) → (n.team_id == m.team_id && sql_eq n.jersey_number k) ≡ false
    → n.jersey_number ≡ some k
    → ⊥
no_clash-jersey m n same k none_shown shown = ground (arith, rw shown at none_shown, same)

jersey_clash-All :
    (m : TeamMembership) (ms : List TeamMembership) (j : Option ℕ)
    → jersey_clash m.team_id j ms ≡ false
    → All (λ n. m.team_id ≡ n.team_id → (k : ℕ) → j ≡ some k → n.jersey_number ≡ some k → ⊥) ms
unfolding jersey_clash
jersey_clash-All m [] j free = tt
jersey_clash-All m (n ∷ ms) none free =
    ((λ same k e shown. absurd (cc e)), jersey_clash-All m ms none free)
jersey_clash-All m ms (some j) free =
    All-map _ _ (λ n other same k e shown. no_clash-jersey m n same j other (shown ∙ sym e)) ms
      (any_where-false-All (λ n. n.team_id == m.team_id && sql_eq n.jersey_number j) ms free)

-- A row that breaks no key is apart from those that are there.
breaks_key-Apart :
    (m : TeamMembership) (ms : List TeamMembership) → breaks_key m ms ≡ false → All (Apart m) ms
unfolding breaks_key
breaks_key-Apart m ms free =
    let keys = or_false _ _ free in
    All-map _ (Apart m)
      (λ n fact same.
        ((λ user. ground (arith, fact.0, same, user)), λ k e shown. fact.1 same k e shown))
      ms
      (All-both _ _ ms (any_where-false-All (same_member m.team_id m.user_id) ms keys.0)
        (jersey_clash-All m ms m.jersey_number keys.1))

bump-within :
    (invite : TeamInvite) (is : List TeamInvite)
    → invite.uses + 1 ≤ invite.max_uses
    → All (λ i. (i.id == invite.id) ≡ true → i ≡ invite) is
    → All (λ i. i.uses ≤ i.max_uses) is
    → All
        (λ i. i.uses ≤ i.max_uses)
        (update_where (λ i. i.id == invite.id) (λ i. record i { uses = invite.uses + 1 }) is)
unfolding update_where
bump-within invite [] room locked h = tt
bump-within invite (x ∷ is) room locked h = elim (Bool-cases (x.id == invite.id)) [
  | inl t ↦ rw t (rw (locked.0 t) room, bump-within invite is room locked.1 h.1)
  | inr n ↦ rw n (h.0, bump-within invite is room locked.1 h.1)
]

use_invite-within :
    (invite : Option TeamInvite) (now : ℕ) (is : List TeamInvite)
    → invite_refusal now invite ≡ none
    → ((i : TeamInvite) → invite ≡ some i → All (λ x. (x.id == i.id) ≡ true → x ≡ i) is)
    → All (λ i. i.uses ≤ i.max_uses) is
    → All (λ i. i.uses ≤ i.max_uses) (use_invite invite is)
unfolding use_invite invite_refusal
use_invite-within none now is fine locked h = h
use_invite-within (some invite) now is fine locked h =
    bump-within invite is (ground (arith, fine)) (locked invite refl) h

-- However a join ends, and whatever other sessions commit meanwhile: if they keep the tables sound and
-- leave the locked invite alone, then no invite gets more uses than it allows, no user gets a second
-- seat in a team, and no number is shown twice in one.
pub join_team-TeamsOk :
    (limiter : RateLimiter) (max_attempts : ℕ) (verified_only : Bool) (user : User)
    (invite_code : Text) (jersey : Option ℕ) (new_id : ℕ) (elsewhere : Db → Db) (db : Db)
    → TeamsOk db
    → TeamsOk (elsewhere db)
    → Locked (normalize_invite_code invite_code) db (elsewhere db)
    → TeamsOk
        (join_team limiter max_attempts verified_only user invite_code jersey new_id elsewhere db).1
unfolding MembersApart membership_of
join_team-TeamsOk limiter max_attempts verified_only user invite_code jersey new_id elsewhere db
      before meanwhile locked =
    join_team-end (λ end. TeamsOk end.1) limiter max_attempts verified_only user invite_code jersey
      new_id elsewhere db
      (λ e after same. record {
        apart = rw same.memberships before.apart;
        within = rw same.invites before.within;
      })
      (λ e. meanwhile)
      (λ team invite fine free after teams memberships invites. record {
        apart =
            rw memberships (breaks_key-Apart _ (elsewhere db).memberships free, meanwhile.apart);
        within = rw invites (
            use_invite-within invite db.now (elsewhere db).invites fine.usable
              (λ i e. locked i (rw fine.found e)) meanwhile.within);
      })

-- A seat that the code stands for, and that the user's account may have.
pub record Rightful (user : User) (code : Text) (db : Db) (m : TeamMembership) : Type 0 where
  pub team : Team
  pub invite : Option TeamInvite
  pub found : team_of_code code db ≡ (some team, invite)
  pub opened : is_open_team team ≡ true
  pub same_team : m.team_id ≡ team.id
  pub same_user : m.user_id ≡ user.id
  pub same_role : m.team_role ≡ target_role invite
  pub allowed : team_role_allowed_for_user user.role m.team_role ≡ true
  pub active : (i : TeamInvite) → invite ≡ some i → i.is_active ≡ true
  pub unexpired : (i : TeamInvite) → invite ≡ some i → db.now < i.expires_at
  pub unspent : (i : TeamInvite) → invite ≡ some i → i.uses < i.max_uses

joined-Rightful :
    (user : User) (team : Team) (invite : Option TeamInvite) (jersey : Option ℕ) (code : Text)
    (db : Db)
    → Admitted user team invite jersey code db
    → Rightful user code db (joined user team invite jersey)
unfolding seat_refusal invite_refusal membership_of
joined-Rightful user team invite jersey code db fine = record {
  team = team;
  invite = invite;
  found = fine.found;
  opened = fine.opened;
  same_team = refl;
  same_user = refl;
  same_role = refl;
  allowed = ground (arith, fine.seated);
  active = λ i e. ground (arith, rw e at fine.usable);
  unexpired = λ i e. ground (arith, rw e at fine.usable);
  unspent = λ i e. ground (arith, rw e at fine.usable);
}

-- A join that succeeds gives the user a seat that the code stands for: the code is that of a team or of an
-- invite to it; the team is active and not deleted; the invite is active, not expired and not used up,
-- and its role is the role of the seat, which is a player's without an invite; and the role is one
-- that the user's account may have.
pub join_team-Rightful :
    (limiter : RateLimiter) (max_attempts : ℕ) (verified_only : Bool) (user : User)
    (invite_code : Text) (jersey : Option ℕ) (new_id : ℕ) (elsewhere : Db → Db) (db : Db)
    {m : TeamMembership}
    → (join_team limiter max_attempts verified_only user invite_code jersey new_id elsewhere db).0
      ≡ ok m
    → Rightful user (normalize_invite_code invite_code) db m
join_team-Rightful limiter max_attempts verified_only user invite_code jersey new_id elsewhere db
      {m} =
    let code = normalize_invite_code invite_code in
    join_team-end (λ end. end.0 ≡ ok m → Rightful user code db m) limiter max_attempts verified_only
      user invite_code jersey new_id elsewhere db (λ e after same x. absurd (cc x))
      (λ e x. absurd (cc x))
      (λ team invite fine free after _ _ _ x.
        let same : joined user team invite jersey ≡ m = cc x in
        subst (Rightful user code db) same (joined-Rightful user team invite jersey code db fine))
