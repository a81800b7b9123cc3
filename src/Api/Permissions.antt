-- ===== src/Api/Permissions.antt =====
-- apps/api/src/nextballup_api/permissions.py: who may act on a team. Whether sensitive actions need a
-- verified account (`should_require_verified_email_for_sensitive_actions`) is an argument.
pub mod Coaches
use nextballup.Prelude.{
  ℕ, Bool, true, false, not, ◌&&◌, ◌||◌, Option, none, some, ◌==◌, find_where, is_some,
}
use nextballup.Core.Enums.{TeamRole, is_admin}
use nextballup.Core.Errors.{ErrorClass, ErrorCode}
use nextballup.Db.{Db, User, TeamMembership}
use nextballup.Api.Result.{Result, ok, err, app_error, raise_if, ◌>>=◌}

unfoldable pub require_verified_account : Bool → User → Result (Unit {0})
require_verified_account required user =
    raise_if (required && not (is_admin user.role || user.is_verified)) ErrorClass.forbidden_error
      ErrorCode.forbidden

unfoldable pub get_team_membership : ℕ → ℕ → Db → Option TeamMembership
get_team_membership user_id team_id db =
    find_where (λ m. m.team_id == team_id && (m.user_id == user_id && m.is_active)) db.memberships

-- A membership that is not saved; the ORM gives an unsaved row no jersey and no flag yet.
synthesized : ℕ → ℕ → TeamMembership
synthesized user_id team_id = record {
  team_id = team_id;
  user_id = user_id;
  team_role = TeamRole.manager;
  jersey_number = none;
  is_active = false;
}

unfoldable pub require_team_member : User → ℕ → Db → Result TeamMembership
unfolding get_team_membership synthesized
require_team_member user team_id db = elim (get_team_membership user.id team_id db) [
  | some m ↦ ok m
  | none ↦ elim (is_admin user.role) [
    | true ↦ ok (synthesized user.id team_id)
    | false ↦ err (app_error ErrorClass.forbidden_error ErrorCode.forbidden)
  ]
]

-- Membership in COACH_TEAM_ROLES.
abbrev pub is_coach_role : TeamRole → Bool
is_coach_role TeamRole.head_coach = true
is_coach_role TeamRole.assistant_coach = true
is_coach_role _ = false

unfoldable pub require_coach_role : TeamMembership → Result TeamMembership
require_coach_role m = elim (is_coach_role m.team_role) [
  | true ↦ ok m
  | false ↦ err (app_error ErrorClass.forbidden_error ErrorCode.forbidden)
]

unfoldable pub require_team_coach : User → ℕ → Db → Result TeamMembership
unfolding require_team_member require_coach_role
require_team_coach user team_id db = elim (is_admin user.role) [
  | true ↦ require_team_member user team_id db
  | false ↦ require_team_member user team_id db >>= require_coach_role
]
