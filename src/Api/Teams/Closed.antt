-- ===== src/Api/Teams/Closed.antt =====
-- teams.py: a team that was deleted takes no member any more.
use mathlib.Core.Option
use nextballup.Prelude.{
  ℕ, ◌≡◌, refl, ap, ◌∙◌, subst, Bool, true, false, Option, none, some, List, [], ◌∷◌, arith, ◌==◌,
  ==→eq, inl, inr, Bool-cases, Option-cases, if◌then◌else◌, is_some, find_where, find_where-All,
  find_where_self, update_where, All,
}
use nextballup.Core.Text.{Text, text_eq}
use nextballup.Db.{Db, User, Team, TeamMembership, TeamInvite, write_audit}
use nextballup.Api.Result.{Result, ok, bind_ok}
use nextballup.Api.Permissions.{require_verified_account, require_team_coach}
use nextballup.Api.RateLimit.{RateLimiter}
use nextballup.Api.Teams.{is_open_team, delete_active, mark_deleted, delete_team}
use nextballup.Api.Teams.Join.{normalize_invite_code, team_of_code, join_team}
use nextballup.Api.Teams.Members.{join_team-Rightful}

-- The primary key of `teams`.
abbrev pub UniqueTeams : List Team → Type 0
UniqueTeams [] = Unit
UniqueTeams (t ∷ ts) = (find_where (λ u. u.id == t.id) ts ≡ none) × UniqueTeams ts

-- No row with the id is open.
abbrev Shut : ℕ → Team → Type 0
Shut k team = (team.id == k) ≡ true → is_open_team team ≡ false

absent-Shut : (k : ℕ) (ts : List Team) → find_where (λ t. t.id == k) ts ≡ none → All (Shut k) ts
unfolding find_where
absent-Shut k [] e = tt
absent-Shut k (t ∷ ts) e = elim (Bool-cases (t.id == k)) [
  | inl h ↦ absurd (cc (rw h at e))
  | inr n ↦ ((λ h. absurd (cc (h, n))), absent-Shut k ts (rw n at e))
]

found-Shut :
    (k : ℕ) (ts : List Team) {team : Team}
    → UniqueTeams ts
    → find_where (λ t. t.id == k) ts ≡ some team
    → is_open_team team ≡ false
    → All (Shut k) ts
unfolding find_where
found-Shut k [] u e closed = absurd (cc e)
found-Shut k (t ∷ ts) {team} u e closed = elim (Bool-cases (t.id == k)) [
  | inl h ↦
      let same : t ≡ team = Option.some-injective t team (rw h at e) in
      ((λ _. rw same closed), absent-Shut k ts (rw (==→eq t.id k h) at u.0))
  | inr n ↦ ((λ h. absurd (cc (h, n))), found-Shut k ts u.1 (rw n at e) closed)
]

mark-Shut :
    (k at : ℕ) (ts : List Team)
    → All (Shut k) (update_where (λ t. t.id == k) (λ t. record t { deleted_at = some at }) ts)
unfolding update_where
mark-Shut k at [] = tt
mark-Shut k at (t ∷ ts) = elim (Bool-cases (t.id == k)) [
  | inl h ↦ rw h ((λ _. ground arith), mark-Shut k at ts)
  | inr n ↦ rw n ((λ h. absurd (cc (h, n))), mark-Shut k at ts)
]

delete_active-Shut :
    (user : User) (team : Team) (k : ℕ) (db : Db) {after : Db}
    → UniqueTeams db.teams
    → find_where (λ t. t.id == k) db.teams ≡ some team
    → delete_active user team db ≡ ok after
    → All (Shut k) after.teams
unfolding delete_active mark_deleted write_audit
delete_active-Shut user team k db {after} u found e =
    let key = ==→eq team.id k (find_where_self (λ t. t.id == k) db.teams found) in
    let done =
      bind_ok (require_team_coach user team.id db)
        (λ _. ok (if is_some team.deleted_at then db else mark_deleted user team db)) e in
    elim (Bool-cases (is_some team.deleted_at)) [
      | inl t ↦
          let same : db ≡ after = cc (rw t at done.1.1) in
          subst (λ d. All (Shut k) d.teams) same (found-Shut k db.teams u found (ground (arith, t)))
      | inr f ↦
          let same : mark_deleted user team db ≡ after = cc (rw f at done.1.1) in
          subst (λ d. All (Shut k) d.teams) same (rw key (mark-Shut k db.now db.teams))
    ]

delete_team-Shut :
    (verified_only : Bool) (user : User) (k : ℕ) (db : Db) {after : Db}
    → UniqueTeams db.teams
    → delete_team verified_only user k db ≡ ok after
    → All (Shut k) after.teams
unfolding delete_team
delete_team-Shut verified_only user k db {after} u e =
    let rest : Result Db = elim (find_where (λ t. t.id == k) db.teams) [
      | none ↦ ok db
      | some team ↦ elim team.is_active [ false ↦ ok db | true ↦ delete_active user team db ]
    ] in
    let asked = bind_ok (require_verified_account verified_only user) (λ _. rest) e in
    elim (Option-cases (find_where (λ t. t.id == k) db.teams)) [
      | inl n ↦
          let same : db ≡ after = cc (rw n at asked.1.1) in
          subst (λ d. All (Shut k) d.teams) same (absent-Shut k db.teams n)
      | inr (team, f) ↦ elim (Bool-cases team.is_active) [
        | inl t ↦ delete_active-Shut user team k db u f (rw (f, t) at asked.1.1)
        | inr off ↦
            let same : db ≡ after = cc (rw (f, off) at asked.1.1) in
            subst (λ d. All (Shut k) d.teams) same (found-Shut k db.teams u f (rw off refl))
      ]
    ]

team_of_code-All :
    (P : Team → Type 0) (code : Text) (db : Db) {team : Team} {invite : Option TeamInvite}
    → All P db.teams
    → team_of_code code db ≡ (some team, invite)
    → P team
unfolding team_of_code
team_of_code-All P code db {team} h e =
    elim (Option-cases (find_where (λ t. text_eq t.invite_code code) db.teams)) [
      | inr (t, f) ↦
          let same : some t ≡ some team = ap (λ p. p.0) (rw (f, team_of_code) at e) in
          (find_where-All P (λ t. text_eq t.invite_code code) db.teams h (f ∙ same)).1
      | inl n ↦ elim (Option-cases (find_where (λ i. text_eq i.invite_code code) db.invites)) [
        | inl absent ↦
            let nobody : none ≡ some team = ap (λ p. p.0) (rw (n, absent, team_of_code) at e) in
            absurd (cc nobody)
        | inr (i, g) ↦
            let named : find_where (λ t. t.id == i.team_id) db.teams ≡ some team =
              ap (λ p. p.0) (rw (n, g, team_of_code) at e) in
            (find_where-All P (λ t. t.id == i.team_id) db.teams h named).1
      ]
    ]

-- A join whose checks begin in the state that an answered deletion left, where teams have a primary key,
-- gives no seat in the deleted team, whoever deletes, whichever code is used and whatever commits during
-- the join. A join that had checked the team before the deletion committed is not covered.
pub delete_team_closes :
    (verified_only : Bool) (user : User) (team_id : ℕ) (db : Db) {after : Db}
    → UniqueTeams db.teams
    → delete_team verified_only user team_id db ≡ ok after
    → (limiter : RateLimiter) (max_attempts : ℕ) (required : Bool) (newcomer : User)
      (invite_code : Text) (jersey : Option ℕ) (new_id : ℕ) (elsewhere : Db → Db)
      {m : TeamMembership}
    → (join_team limiter max_attempts required newcomer invite_code jersey new_id elsewhere after).0
      ≡ ok m
    → (m.team_id == team_id) ≡ false
delete_team_closes verified_only user team_id db {after} u e limiter max_attempts required newcomer
      invite_code jersey new_id elsewhere {m} joined =
    let seat =
      join_team-Rightful limiter max_attempts required newcomer invite_code jersey new_id elsewhere
        after joined in
    let shut =
      team_of_code-All (Shut team_id) (normalize_invite_code invite_code) after
        (delete_team-Shut verified_only user team_id db u e) seat.found in
    elim (Bool-cases (m.team_id == team_id)) [
      | inr n ↦ n
      | inl t ↦ absurd (cc (shut (rw (← seat.same_team) t), seat.opened))
    ]
