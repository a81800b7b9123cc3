-- ===== src/Api/Teams/Outcome.antt =====
-- teams.py: the ways in which `join_team` ends.
use nextballup.Prelude.{
  ℕ, ◌≡◌, refl, Bool, true, false, Option, none, some, ◌∷◌, inl, inr, Bool-cases, Option-cases,
  if◌then◌else◌,
}
use nextballup.Core.Text.{Text}
use nextballup.Core.Errors.{AppError, ErrorCode}
use nextballup.Db.{Db, User, Team, TeamMembership, TeamInvite, write_audit}
use nextballup.Api.Result.{Result, ok, err, Result-cases, ◌>>◌}
use nextballup.Api.Permissions.{require_verified_account}
use nextballup.Api.RateLimit.{RateLimiter, enforce_rate_limit}
use nextballup.Api.Teams.{is_open_team, membership_of}
use nextballup.Api.Teams.Join.{
  normalize_invite_code, is_player_seat, refuse_join, team_of_code, invite_refusal, target_role,
  first_reason, seat_refusal, breaks_key, use_invite, seat_member, join_open_team, join_by_code,
  with_leave, join_team,
}

-- The membership that a join makes.
abbrev pub joined : User → Team → Option TeamInvite → Option ℕ → TeamMembership
joined user team invite jersey =
    let role = target_role invite in
    membership_of team.id user.id role (if is_player_seat role then jersey else none)

-- What lets a user in.
pub record Admitted (user : User) (team : Team) (invite : Option TeamInvite) (jersey : Option ℕ)
    (code : Text) (db : Db) : Type 0 where
  pub found : team_of_code code db ≡ (some team, invite)
  pub opened : is_open_team team ≡ true
  pub usable : invite_refusal db.now invite ≡ none
  pub seated : seat_refusal user team (target_role invite) jersey db ≡ none

-- The tables of the teams, whatever the rest of the state is.
pub record SameTeams (before after : Db) : Type 0 where
  pub teams : after.teams ≡ before.teams
  pub memberships : after.memberships ≡ before.memberships
  pub invites : after.invites ≡ before.invites

first_reason-none : (a b : Option ErrorCode) → first_reason a b ≡ none → (a ≡ none) × (b ≡ none)
first_reason-none none b e = (refl, e)
first_reason-none (some x) b e = absurd (cc e)

-- A property of all three ends: a refusal that changes no table of the teams, a key that another
-- session took first, and a seat.
module _ (P : Result TeamMembership × Db → Type 0) (user : User) (code : Text) (jersey : Option ℕ)
    (new_id : ℕ) (elsewhere : Db → Db) (db : Db)
    (refused : (e : AppError) (after : Db) → SameTeams db after → P (err e, after))
    (raced : (e : AppError) → P (err e, elsewhere db))
    (admitted : (team : Team) (invite : Option TeamInvite)
      → Admitted user team invite jersey code db
      → breaks_key (joined user team invite jersey) (elsewhere db).memberships ≡ false
      → (after : Db) → after.teams ≡ (elsewhere db).teams
      → after.memberships ≡ joined user team invite jersey ∷ (elsewhere db).memberships
      → after.invites ≡ use_invite invite (elsewhere db).invites
      → P (ok (joined user team invite jersey), after)) where
  refuse_join-end :
      (team_id : Option ℕ) (reason : ErrorCode) → P (refuse_join user code team_id reason db)
  unfolding refuse_join write_audit
  refuse_join-end team_id reason =
      refused _ _ (record { teams = refl; memberships = refl; invites = refl })

  seat_member-end :
      (team : Team) (invite : Option TeamInvite)
      → Admitted user team invite jersey code db
      → P (seat_member user invite (joined user team invite jersey) new_id (elsewhere db))
  unfolding seat_member write_audit
  seat_member-end team invite fine =
      elim (Bool-cases (breaks_key (joined user team invite jersey) (elsewhere db).memberships)) [
        | inl t ↦ rw (t, seat_member) (raced _)
        | inr f ↦ rw (f, seat_member) (admitted team invite fine f _ refl refl refl)
      ]

  join_open_team-end :
      (team : Team) (invite : Option TeamInvite)
      → team_of_code code db ≡ (some team, invite)
      → is_open_team team ≡ true
      → P (join_open_team user code team invite jersey new_id elsewhere db)
  unfolding join_open_team
  join_open_team-end team invite found opened =
      elim (Option-cases (
        first_reason (invite_refusal db.now invite)
          (seat_refusal user team (target_role invite) jersey db))) [
            | inr (reason, s) ↦ rw (s, join_open_team) (refuse_join-end (some team.id) reason)
            | inl n ↦
                let both = first_reason-none _ _ n in
                rw (n, join_open_team)
                  (seat_member-end team invite
                    (record { found = found; opened = opened; usable = both.0; seated = both.1 }))
          ]

  join_by_code-end :
      (o : Option Team) (invite : Option TeamInvite)
      → team_of_code code db ≡ (o, invite)
      → P (join_by_code user code jersey new_id elsewhere db (o, invite))
  unfolding join_by_code
  join_by_code-end none invite found = refuse_join-end none ErrorCode.invite_not_found
  join_by_code-end (some team) invite found = elim (Bool-cases (is_open_team team)) [
    | inl t ↦ rw (t, join_by_code) (join_open_team-end team invite found t)
    | inr f ↦ rw (f, join_by_code) (refuse_join-end none ErrorCode.invite_not_found)
  ]

-- The same of the whole handler.
pub join_team-end :
    (P : Result TeamMembership × Db → Type 0) (limiter : RateLimiter) (max_attempts : ℕ)
    (verified_only : Bool) (user : User) (invite_code : Text) (jersey : Option ℕ) (new_id : ℕ)
    (elsewhere : Db → Db) (db : Db)
    → ((e : AppError) (after : Db) → SameTeams db after → P (err e, after))
    → ((e : AppError) → P (err e, elsewhere db))
    → ((team : Team) (invite : Option TeamInvite)
        → Admitted user team invite jersey (normalize_invite_code invite_code) db
        → breaks_key (joined user team invite jersey) (elsewhere db).memberships ≡ false
        → (after : Db) → after.teams ≡ (elsewhere db).teams
        → after.memberships ≡ joined user team invite jersey ∷ (elsewhere db).memberships
        → after.invites ≡ use_invite invite (elsewhere db).invites
        → P (ok (joined user team invite jersey), after))
    → P (join_team limiter max_attempts verified_only user invite_code jersey new_id elsewhere db)
unfolding join_team with_leave
join_team-end P limiter max_attempts verified_only user invite_code jersey new_id elsewhere db
      refused raced admitted =
    let code = normalize_invite_code invite_code in
    elim (Result-cases
      (enforce_rate_limit limiter max_attempts >> require_verified_account verified_only user)) [
        | inr (e, f) ↦
            rw f (refused e db (record { teams = refl; memberships = refl; invites = refl }))
        | inl (u, f) ↦ rw f (
            join_by_code-end P user code jersey new_id elsewhere db refused raced admitted
              (team_of_code code db).0 (team_of_code code db).1 refl)
      ]
