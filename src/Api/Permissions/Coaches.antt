-- ===== src/Api/Permissions/Coaches.antt =====
-- permissions.py: what a passed check on a team says of the user.
use nextballup.Prelude.{ℕ, ◌≡◌, true, ◌⊎◌, inl, inr, some, Bool-cases, Option-cases}
use nextballup.Core.Enums.{is_admin}
use nextballup.Db.{Db, User, TeamMembership}
use nextballup.Api.Result.{ok}
use nextballup.Api.Permissions.{
  get_team_membership, require_team_member, require_team_coach, is_coach_role, require_coach_role,
}

-- A user who passes the coach check is an administrator, or has an active membership of that very
-- team as head coach or assistant coach.
require_team_coach-IsCoach :
    (user : User) (team_id : ℕ) (db : Db) {m : TeamMembership}
    → require_team_coach user team_id db ≡ ok m
    → (is_admin user.role ≡ true)
      ⊎ ((get_team_membership user.id team_id db ≡ some m) × (is_coach_role m.team_role ≡ true))
unfolding require_team_coach require_team_member require_coach_role
require_team_coach-IsCoach user team_id db {m} e = elim (Bool-cases (is_admin user.role)) [
  | inl t ↦ inl t
  | inr f ↦ elim (Option-cases (get_team_membership user.id team_id db)) [
    | inl n ↦ absurd (cc (rw (f, n, require_team_coach, require_team_member) at e))
    | inr (x, found) ↦ elim (Bool-cases (is_coach_role x.team_role)) [
      | inr k ↦
          absurd (
            cc (rw (f, found, require_team_coach, require_team_member, k, require_coach_role) at e))
      | inl c ↦
          let same : x ≡ m =
            cc (
              rw (f, found, require_team_coach, require_team_member, c, require_coach_role) at e) in
          inr (rw (← same) (found, c))
    ]
  ]
]
