-- ===== src/Api/Tests/Teams.antt =====
-- The theorems on teams and invites, at a small database.
use mathlib.Core.Option
use nextballup.Prelude.{
  ◌≡◌, refl, true, false, none, some, [], ◌∷◌, arith, ◌==◌, find_where, update_where,
}
use nextballup.Core.Text.{codes, text_eq}
use nextballup.Core.Enums.{UserRole, TeamRole, TeamLevel, InstitutionType}
use nextballup.Db.{Db, User, Team, TeamInvite}
use nextballup.Worker.Tests.{store}
use nextballup.Api.RateLimit.{RateLimiter}
use nextballup.Api.Tests.{coach, coaching}
use nextballup.Api.Teams.{delete_team}
use nextballup.Api.Teams.Join.{join_team, normalize_invite_code, team_of_code}
use nextballup.Api.Teams.Members.{
  TeamsOk, MembersApart, Rightful, join_team-TeamsOk, join_team-Rightful,
}
use nextballup.Api.Teams.Closed.{delete_team_closes}

abbrev hawks : Team
hawks = record {
  id = 1;
  name = codes "Hawks";
  level = TeamLevel.high_school;
  institution_type = InstitutionType.k12_school;
  invite_code = codes "HAWKS23456";
  is_active = true;
  deleted_at = none;
}

abbrev owls : Team
owls = record hawks { id = 2; name = codes "Owls"; invite_code = codes "PWLS234567" }

-- An invite of the Owls with one use left.
abbrev invite : TeamInvite
invite = record {
  id = 3;
  team_id = 2;
  invite_code = codes "STAFF23456";
  role = TeamRole.assistant_coach;
  max_uses = 2;
  uses = 1;
  expires_at = 500;
  created_by = 7;
  is_active = true;
}

abbrev league : Db
league = record store {
  teams = hawks ∷ owls ∷ [];
  memberships = coaching ∷ [];
  invites = invite ∷ [];
}

abbrev newcomer : User
newcomer = record coach { id = 8; role = UserRole.coach }

abbrev limiter : RateLimiter
limiter = record { redis_url = true; fail_closed = true; count = some 1 }

league-TeamsOk : TeamsOk league
unfolding MembersApart
league-TeamsOk = record { apart = (tt, tt); within = (ground arith, tt) }

join_team-TeamsOk_example :
    TeamsOk (join_team limiter 5 true newcomer (codes " staff23456 ") none 50 (λ d. d) league).1
unfolding team_of_code find_where text_eq normalize_invite_code
join_team-TeamsOk_example =
    join_team-TeamsOk limiter 5 true newcomer (codes " staff23456 ") none 50 (λ d. d) league
      league-TeamsOk league-TeamsOk (λ i e. ((λ _. Option.some-injective invite i e), tt))

join_team-Rightful_example :
    Rightful newcomer (normalize_invite_code (codes " staff23456 ")) league (record {
      team_id = 2;
      user_id = 8;
      team_role = TeamRole.assistant_coach;
      jersey_number = none;
      is_active = true;
    })
unfolding join_team team_of_code find_where text_eq
join_team-Rightful_example =
    join_team-Rightful limiter 5 true newcomer (codes " staff23456 ") none 50 (λ d. d) league refl

delete_team_closes_example : (2 == 1) ≡ false
unfolding delete_team find_where update_where join_team text_eq
delete_team_closes_example =
    delete_team_closes true coach 1 league (refl, (refl, tt)) refl limiter 5 true newcomer
      (codes "STAFF23456") none 50 (λ d. d)
      {m = record {
        team_id = 2;
        user_id = 8;
        team_role = TeamRole.assistant_coach;
        jersey_number = none;
        is_active = true;
      }}
      refl
