-- ===== src/Api/Teams.antt =====
-- apps/api/src/nextballup_api/routers/teams.py: the creation and the deletion of a team, its invites
-- and its privacy consents. The random draws of `generate_invite_code` and the new keys are
-- arguments. The newest row of a table stands first.
pub mod Join
pub mod Outcome
pub mod Members
pub mod Closed
pub mod Consents
use mathlib.Core.Option
use nextballup.Prelude.{
  ℕ, ◌+◌, ◌*◌, Bool, true, false, not, ◌&&◌, ◌||◌, Option, none, some, List, [], ◌∷◌, ◌==◌,
  if◌then◌else◌, is_some, is_none, find_where, any_where, update_where, take,
}
use nextballup.Core.Text.{Text, text_eq}
use nextballup.Core.Enums.{
  UserRole, TeamRole, TeamLevel, InstitutionType, is_admin, is_player, is_coach, role_value,
  level_value,
}
use nextballup.Core.Errors.{ErrorClass, ErrorCode, AuditAction}
use nextballup.Core.Json.{Json, Fields}
use nextballup.Db.{Db, User, Team, TeamMembership, TeamInvite, TeamPrivacyConsent, write_audit}
use nextballup.Api.Result.{Result, ok, err, app_error, raise_if, ◌>>=◌, ◌>>◌}
use nextballup.Api.Permissions.{require_verified_account, require_team_coach}
use nextballup.Api.Videos.{or_raise, user_audit}

-- A team that takes part: active and not deleted.
abbrev pub is_open_team : Team → Bool
is_open_team team = team.is_active && is_none team.deleted_at

-- `get_team_or_404` of permissions.py
unfoldable pub get_team_or_404 : ℕ → Db → Result Team
unfolding find_where
get_team_or_404 team_id db =
    or_raise (find_where (λ t. t.id == team_id) db.teams) ErrorClass.not_found_error
      ErrorCode.team_not_found
    >>= λ team.
        raise_if (not (is_open_team team)) ErrorClass.not_found_error ErrorCode.team_not_found
        >> ok team

-- A code that a team or an invite has.
unfoldable pub code_taken : Text → Db → Bool
unfolding any_where
code_taken code db =
    any_where (λ t. text_eq t.invite_code code) db.teams
    || any_where (λ i. text_eq i.invite_code code) db.invites

-- The first free draw, of five at most.
first_free : List Text → Db → Result Text
unfolding code_taken
first_free [] db = err (app_error ErrorClass.app_error ErrorCode.internal_error)
first_free (code ∷ draws) db = if code_taken code db then first_free draws db else ok code

unfoldable pub generate_unique_invite_code : List Text → Db → Result Text
unfolding first_free
generate_unique_invite_code draws db = first_free (take 5 draws) db

pub record CreateTeamRequest : Type 0 where
  pub name : Text
  pub sport : Text
  pub level : TeamLevel
  pub institution_type : InstitutionType

new_team : CreateTeamRequest → Text → ℕ → Team
new_team payload code team_id = record {
  id = team_id;
  name = payload.name;
  level = payload.level;
  institution_type = payload.institution_type;
  invite_code = code;
  is_active = true;
  deleted_at = none;
}

unfoldable pub membership_of : ℕ → ℕ → TeamRole → Option ℕ → TeamMembership
membership_of team_id user_id role jersey = record {
  team_id = team_id;
  user_id = user_id;
  team_role = role;
  jersey_number = jersey;
  is_active = true;
}

-- `require_user_role(current_user, UserRole.COACH, UserRole.ADMIN)` of permissions.py
unfoldable pub require_staff_role : User → Result (Unit {0})
require_staff_role user =
    raise_if (not (is_coach user.role || is_admin user.role)) ErrorClass.forbidden_error
      ErrorCode.forbidden

unfoldable pub add_team : User → CreateTeamRequest → ℕ → Text → Db → Db
unfolding new_team membership_of write_audit
add_team user payload team_id code db =
    write_audit
      (user_audit AuditAction.team_created user "team" team_id team_id (
        Fields.field "sport" (Json.str payload.sport)
          (Fields.field "level" (Json.str (level_value payload.level)) Fields.end)))
      (record db {
        teams = new_team payload code team_id ∷ db.teams;
        memberships = membership_of team_id user.id TeamRole.head_coach none ∷ db.memberships;
      })

-- The code of the new team, and the state.
unfoldable pub create_team :
    Bool → List Text → User → CreateTeamRequest → ℕ → Db → Result (Text × Db)
unfolding require_staff_role require_verified_account generate_unique_invite_code add_team
create_team verified_only draws user payload team_id db =
    require_staff_role user
    >> require_verified_account verified_only user
    >> generate_unique_invite_code draws db
    >>= λ code. ok (code, add_team user payload team_id code db)

abbrev is_head_coach : TeamRole → Bool
is_head_coach TeamRole.head_coach = true
is_head_coach _ = false

pub record CreateInviteRequest : Type 0 where
  pub role : TeamRole
  pub max_uses : ℕ
  pub expires_in_days : ℕ

new_invite : CreateInviteRequest → Text → ℕ → ℕ → ℕ → ℕ → TeamInvite
new_invite payload code id team_id user_id now = record {
  id = id;
  team_id = team_id;
  invite_code = code;
  role = payload.role;
  max_uses = payload.max_uses;
  uses = 0;
  expires_at = now + payload.expires_in_days * 86400;
  created_by = user_id;
  is_active = true;
}

add_invite : User → CreateInviteRequest → ℕ → ℕ → Text → Db → Db
unfolding new_invite write_audit
add_invite user payload team_id id code db =
    write_audit
      (user_audit AuditAction.team_invite_created user "team_invite" id team_id (
        Fields.field "role" (Json.str (role_value payload.role))
          (Fields.field "max_uses" (Json.num payload.max_uses) Fields.end)))
      (record db { invites = new_invite payload code id team_id user.id db.now ∷ db.invites })

-- Only a head coach or an administrator hands out the seat of a head coach.
may_issue : User → TeamMembership → TeamRole → Result (Unit {0})
may_issue user membership role =
    raise_if
      (is_head_coach role && (not (is_admin user.role) && not (is_head_coach membership.team_role)))
      ErrorClass.forbidden_error ErrorCode.forbidden

unfoldable pub create_invite :
    Bool → List Text → User → ℕ → CreateInviteRequest → ℕ → Db → Result (Text × Db)
unfolding require_verified_account get_team_or_404 require_team_coach may_issue
    generate_unique_invite_code add_invite
create_invite verified_only draws user team_id payload id db =
    require_verified_account verified_only user >> get_team_or_404 team_id db >>= λ team.
    require_team_coach user team.id db >>= λ membership.
    may_issue user membership payload.role >> generate_unique_invite_code draws db >>= λ code.
    ok (code, add_invite user payload team.id id code db)

-- The row that the handler holds is written back by its primary key.
unfoldable pub mark_deleted : User → Team → Db → Db
unfolding update_where write_audit
mark_deleted user team db =
    write_audit
      (user_audit AuditAction.team_deleted user "team" team.id team.id
        (Fields.field "deleted_at" (Json.num db.now) Fields.end))
      (record db {
        teams =
            update_where (λ t. t.id == team.id) (λ t. record t { deleted_at = some db.now })
              db.teams;
      })

-- A team that is active, by its coach.
unfoldable pub delete_active : User → Team → Db → Result Db
unfolding require_team_coach mark_deleted
delete_active user team db = require_team_coach user team.id db >>= λ _.
    ok (if is_some team.deleted_at then db else mark_deleted user team db)

-- The state after a 204, which a team that is not there answers too.
unfoldable pub delete_team : Bool → User → ℕ → Db → Result Db
unfolding require_verified_account find_where delete_active
delete_team verified_only user team_id db =
    require_verified_account verified_only user
    >> elim (find_where (λ t. t.id == team_id) db.teams) [
      | none ↦ ok db
      | some team ↦ elim team.is_active [ false ↦ ok db | true ↦ delete_active user team db ]
    ]
