-- ===== src/Api/Teams/Join.antt =====
-- teams.py: `join_team`. `elsewhere` is what other sessions commit between the checks and the flush,
-- on which the unique keys of the table decide; the invite's row is locked meanwhile.
use nextballup.Prelude.{
  ℕ, ◌+◌, Bool, true, false, not, ◌&&◌, ◌||◌, Option, none, some, List, ◌∷◌, ◌==◌, leb,
  if◌then◌else◌, is_some, is_none, sql_eq, find_where, any_where, update_where,
}
use nextballup.Core.Text.{Text, text_eq, strip, upper}
use nextballup.Core.Enums.{UserRole, TeamRole, is_admin, is_player, is_coach, role_value}
use nextballup.Core.Errors.{AppError, ErrorClass, ErrorCode, AuditAction, code_value}
use nextballup.Core.Json.{Json, Fields}
use nextballup.Db.{Db, User, Team, TeamMembership, TeamInvite, write_audit}
use nextballup.Api.Result.{Result, ok, err, app_error, ◌>>◌}
use nextballup.Api.Permissions.{require_verified_account}
use nextballup.Api.RateLimit.{RateLimiter, enforce_rate_limit}
use nextballup.Api.Videos.{user_audit}
use nextballup.Api.Teams.{is_open_team, membership_of}

unfoldable pub normalize_invite_code : Text → Text
unfolding strip upper
normalize_invite_code value = upper (strip value)

-- Membership in _PLAYER_SEAT_ROLES.
abbrev pub is_player_seat : TeamRole → Bool
is_player_seat TeamRole.player = true
is_player_seat TeamRole.captain = true
is_player_seat _ = false

unfoldable pub team_role_allowed_for_user : UserRole → TeamRole → Bool
team_role_allowed_for_user user_role team_role =
    if is_admin user_role
    then true
    else if is_player_seat team_role
    then is_player user_role
    else is_coach user_role

abbrev pub audit_join_failure : ErrorCode → AppError
audit_join_failure ErrorCode.invite_not_found =
    app_error ErrorClass.not_found_error ErrorCode.invite_not_found
audit_join_failure ErrorCode.invite_expired =
    app_error ErrorClass.conflict_error ErrorCode.invite_expired
audit_join_failure ErrorCode.invite_exhausted =
    app_error ErrorClass.conflict_error ErrorCode.invite_exhausted
audit_join_failure ErrorCode.invite_inactive =
    app_error ErrorClass.conflict_error ErrorCode.invite_inactive
audit_join_failure ErrorCode.invite_role_mismatch =
    app_error ErrorClass.forbidden_error ErrorCode.invite_role_mismatch
audit_join_failure ErrorCode.jersey_number_required =
    app_error ErrorClass.validation_failed_error ErrorCode.jersey_number_required
audit_join_failure ErrorCode.jersey_number_taken =
    app_error ErrorClass.conflict_error ErrorCode.jersey_number_taken
audit_join_failure ErrorCode.already_member =
    app_error ErrorClass.conflict_error ErrorCode.already_member
audit_join_failure reason = app_error ErrorClass.app_error reason

-- `_record_join_failure` and the error that follows it.
unfoldable pub refuse_join {ℓ} :
    {A : Type ℓ} → User → Text → Option ℕ → ErrorCode → Db → Result A × Db
unfolding write_audit
refuse_join user code team_id reason db = (
  err (audit_join_failure reason),
  write_audit
      (record {
        action = AuditAction.team_join_failed;
        actor_user_id = some user.id;
        resource_type = "team";
        resource_id = team_id;
        team_id = team_id;
        extra =
            Fields.field "reason" (Json.str (code_value reason))
              (Fields.field "invite_code" (Json.str code) Fields.end);
      })
      db,
)

-- The team of a code, or of an invite with the code.
unfoldable pub team_of_code : Text → Db → Option Team × Option TeamInvite
unfolding find_where
team_of_code code db = elim (find_where (λ t. text_eq t.invite_code code) db.teams) [
  | some team ↦ (some team, none)
  | none ↦ elim (find_where (λ i. text_eq i.invite_code code) db.invites) [
    | none ↦ (none, none)
    | some invite ↦ (find_where (λ t. t.id == invite.team_id) db.teams, some invite)
  ]
]

-- The first check that fails.
abbrev or_check : Bool → ErrorCode → Option ErrorCode → Option ErrorCode
or_check failed reason next = if failed then some reason else next

unfoldable pub invite_refusal : ℕ → Option TeamInvite → Option ErrorCode
invite_refusal now none = none
invite_refusal now (some invite) = or_check (not invite.is_active) ErrorCode.invite_inactive (
    or_check (leb invite.expires_at now) ErrorCode.invite_expired
      (or_check (leb invite.max_uses invite.uses) ErrorCode.invite_exhausted none))

abbrev pub target_role : Option TeamInvite → TeamRole
target_role none = TeamRole.player
target_role (some invite) = invite.role

abbrev pub same_member : ℕ → ℕ → TeamMembership → Bool
same_member team_id user_id m = m.team_id == team_id && m.user_id == user_id

-- A jersey number of the team; NULL is no number.
unfoldable pub jersey_clash : ℕ → Option ℕ → List TeamMembership → Bool
unfolding any_where
jersey_clash team_id none ms = false
jersey_clash team_id (some n) ms =
    any_where (λ m. m.team_id == team_id && sql_eq m.jersey_number n) ms

unfoldable pub seat_refusal : User → Team → TeamRole → Option ℕ → Db → Option ErrorCode
unfolding team_role_allowed_for_user any_where jersey_clash
seat_refusal user team role jersey db =
    or_check (not (team_role_allowed_for_user user.role role)) ErrorCode.invite_role_mismatch (
      or_check (any_where (same_member team.id user.id) db.memberships) ErrorCode.already_member (
        or_check (is_player_seat role && (is_player user.role && is_none jersey))
          ErrorCode.jersey_number_required
          (or_check (is_player_seat role && jersey_clash team.id jersey db.memberships)
            ErrorCode.jersey_number_taken none)))

-- The unique keys (team_id, user_id) and (team_id, jersey_number).
unfoldable pub breaks_key : TeamMembership → List TeamMembership → Bool
unfolding any_where jersey_clash
breaks_key m ms =
    any_where (same_member m.team_id m.user_id) ms || jersey_clash m.team_id m.jersey_number ms

-- `invite.uses += 1` writes what was read under the lock, plus one.
unfoldable pub use_invite : Option TeamInvite → List TeamInvite → List TeamInvite
unfolding update_where
use_invite none is = is
use_invite (some invite) is =
    update_where (λ i. i.id == invite.id) (λ i. record i { uses = invite.uses + 1 }) is

-- The flush and the commit.
unfoldable pub seat_member :
    User → Option TeamInvite → TeamMembership → ℕ → Db → Result TeamMembership × Db
unfolding breaks_key use_invite write_audit
seat_member user invite m new_id db = elim (breaks_key m db.memberships) [
  | true ↦ (err (audit_join_failure ErrorCode.jersey_number_taken), db)
  | false ↦ (
    ok m,
    write_audit
        (user_audit AuditAction.team_join_succeeded user "team_membership" new_id m.team_id (
          Fields.field "team_role" (Json.str (role_value m.team_role))
            (Fields.field "via_invite" (Json.flag (is_some invite)) Fields.end)))
        (record db { memberships = m ∷ db.memberships; invites = use_invite invite db.invites }),
  )
]

abbrev pub first_reason : Option ErrorCode → Option ErrorCode → Option ErrorCode
first_reason (some reason) _ = some reason
first_reason none next = next

-- The team is open: the checks in their order, then the seat.
unfoldable pub join_open_team :
    User
    → Text
    → Team
    → Option TeamInvite
    → Option ℕ
    → ℕ
    → (Db → Db)
    → Db
    → Result TeamMembership × Db
unfolding invite_refusal seat_refusal refuse_join seat_member membership_of
join_open_team user code team invite jersey new_id elsewhere db =
    let role = target_role invite in
    elim (first_reason (invite_refusal db.now invite) (seat_refusal user team role jersey db)) [
      | some reason ↦ refuse_join user code (some team.id) reason db
      | none ↦
          seat_member user invite
            (membership_of team.id user.id role (if is_player_seat role then jersey else none))
            new_id (elsewhere db)
    ]

unfoldable pub join_by_code :
    User
    → Text
    → Option ℕ
    → ℕ
    → (Db → Db)
    → Db
    → Option Team × Option TeamInvite
    → Result TeamMembership × Db
unfolding refuse_join join_open_team
join_by_code user code jersey new_id elsewhere db (none, invite) =
    refuse_join user code none ErrorCode.invite_not_found db
join_by_code user code jersey new_id elsewhere db (some team, invite) = elim (is_open_team team) [
  | false ↦ refuse_join user code none ErrorCode.invite_not_found db
  | true ↦ join_open_team user code team invite jersey new_id elsewhere db
]

unfoldable pub with_leave :
    Result (Unit {0}) → Result TeamMembership × Db → Db → Result TeamMembership × Db
with_leave (ok _) joined db = joined
with_leave (err e) joined db = (err e, db)

-- The new membership, and the state that is committed whether or not there is one.
unfoldable pub join_team :
    RateLimiter
    → ℕ
    → Bool
    → User
    → Text
    → Option ℕ
    → ℕ
    → (Db → Db)
    → Db
    → Result TeamMembership × Db
unfolding normalize_invite_code enforce_rate_limit require_verified_account team_of_code
    join_by_code with_leave
join_team limiter max_attempts verified_only user invite_code jersey new_id elsewhere db =
    let code = normalize_invite_code invite_code in
    with_leave
      (enforce_rate_limit limiter max_attempts >> require_verified_account verified_only user)
      (join_by_code user code jersey new_id elsewhere db (team_of_code code db)) db
