-- ===== src/Api/Billing/Accounts.antt =====
-- billing.py: that the account which the quota checks find for a team is the one that its plan gives.
use mathlib.Core.Option
use nextballup.Prelude.{
  ℕ, ◌≡◌, refl, sym, subst, false, Option, none, some, List, [], ◌∷◌, ◌==◌, ==→eq, ==_refl, inl,
  inr, Bool-cases, Option-cases, is_none, find_where, find_where_self, any_where,
}
use nextballup.Core.Text.{Text, text_eq}
use nextballup.Db.{Db, BillingAccount, AccountTeamLink, Subscription, Plan}
use nextballup.Api.Result.{ok, ok-injective}
use nextballup.Api.Billing.{
  TeamPlanContext, provision_account, linked_account, get_or_create_account_for_team,
  get_active_subscription, lock_active_billing_account, metered_subscription, plan_context,
  resolve_team_plan,
}
use nextballup.Api.Billing.Quota.{UniqueTeams}

no_link-find_where :
    (team_id : ℕ) (ls : List AccountTeamLink)
    → any_where (λ l. l.team_id == team_id) ls ≡ false
    → find_where (λ l. l.team_id == team_id) ls ≡ none
unfolding any_where find_where
no_link-find_where team_id [] e = refl
no_link-find_where team_id (l ∷ ls) e = elim (Bool-cases (l.team_id == team_id)) [
  | inl t ↦ absurd (cc (rw t at e))
  | inr n ↦ rw n (no_link-find_where team_id ls (rw n at e))
]

-- What an account that was found or made for a team is linked by.
pub record Charged (team_id : ℕ) (account : BillingAccount) (before db : Db) : Type 0 where
  pub linked : linked_account team_id db ≡ some account
  pub teams : db.teams ≡ before.teams
  pub videos : db.videos ≡ before.videos
  pub unique : UniqueTeams before.links → UniqueTeams db.links

provision_account-Charged :
    (team_id : ℕ) (owner : Option ℕ) (code : Text) (account_id : ℕ) (db : Db)
    {account : BillingAccount} {after : Db}
    → provision_account team_id owner code account_id db ≡ ok (account, after)
    → Charged team_id account db after
unfolding provision_account linked_account find_where Option.bind
provision_account-Charged team_id owner code account_id db {account} {after} e =
    elim (Bool-cases (any_where (λ l. l.team_id == team_id) db.links)) [
      | inl t ↦ absurd (cc (rw (t, provision_account) at e))
      | inr n ↦ elim (Option-cases (find_where (λ p. text_eq p.code code) db.plans)) [
        | inl m ↦ absurd (cc (rw (n, m, provision_account) at e))
        | inr (plan, p) ↦
            let made = rw (n, p, provision_account) at e in
            subst (λ (p : BillingAccount × Db). Charged team_id p.0 db p.1) (ok-injective made)
              (record {
                linked = rw (==_refl team_id, Option.bind, ==_refl account_id) refl;
                teams = refl;
                videos = refl;
                unique = λ u. (no_link-find_where team_id db.links n, u);
              })
      ]
    ]

pub get_or_create-Charged :
    (team_id : ℕ) (owner : Option ℕ) (code : Text) (account_id : ℕ) (db : Db)
    {account : BillingAccount} {after : Db}
    → get_or_create_account_for_team team_id owner code account_id db ≡ ok (account, after)
    → Charged team_id account db after
unfolding get_or_create_account_for_team
get_or_create-Charged team_id owner code account_id db {account} {after} e =
    elim (Bool-cases (is_none (find_where (λ t. t.id == team_id) db.teams))) [
      | inl t ↦ absurd (cc (rw t at e))
      | inr n ↦ elim (Option-cases (linked_account team_id db)) [
        | inl m ↦
            provision_account-Charged team_id owner code account_id db
              (rw (n, m, get_or_create_account_for_team) at e)
        | inr (found, f) ↦
            let kept = rw (n, f, get_or_create_account_for_team) at e in
            subst (λ (p : BillingAccount × Db). Charged team_id p.0 db p.1) (ok-injective kept)
              (record { linked = f; teams = refl; videos = refl; unique = λ u. u })
      ]
    ]

-- A second call finds the account that the first one gave.
pub get_or_create_again :
    (team_id : ℕ) (owner : Option ℕ) (code : Text) (account_id : ℕ) (db : Db)
    {account : BillingAccount} {after : Db}
    → get_or_create_account_for_team team_id owner code account_id db ≡ ok (account, after)
    → get_or_create_account_for_team team_id owner code account_id after ≡ ok (account, after)
unfolding get_or_create_account_for_team
get_or_create_again team_id owner code account_id db {account} {after} e =
    let c = get_or_create-Charged team_id owner code account_id db e in
    elim (Bool-cases (is_none (find_where (λ t. t.id == team_id) db.teams))) [
      | inl t ↦ absurd (cc (rw t at e))
      | inr n ↦
          let there =
            subst (λ ts. is_none (find_where (λ t. t.id == team_id) ts) ≡ false) (sym c.teams) n in
          rw (there, c.linked) refl
    ]

bind_some {ℓ κ} :
    {A : Type ℓ} {B : Type κ} (o : Option A) (f : A → Option B) {b : B}
    → Option.bind o f ≡ some b
    → (a : A) × (o ≡ some a) × (f a ≡ some b)
unfolding Option.bind
bind_some none f e = absurd (cc e)
bind_some (some a) f e = (a, refl, e)

-- The account of a team's link that is metered is the account of the team's plan.
pub linked-resolved :
    (team_id : ℕ) (db : Db) {account : BillingAccount} {m : Option Plan × Subscription}
    → linked_account team_id db ≡ some account
    → metered_subscription account.id db ≡ some m
    → (ctx : TeamPlanContext) × (resolve_team_plan team_id db ≡ some ctx)
      × (ctx.account_id ≡ account.id)
unfolding linked_account metered_subscription resolve_team_plan
linked-resolved team_id db {account} {m} linked metered =
    let (link, found, owned) =
      bind_some (find_where (λ l. l.team_id == team_id) db.links)
        (λ l. find_where (λ a. a.id == l.billing_account_id) db.accounts) linked in
    let same : account.id ≡ link.billing_account_id =
      ==→eq account.id link.billing_account_id
        (find_where_self (λ a. a.id == link.billing_account_id) db.accounts owned) in
    elim (Option-cases (lock_active_billing_account account.id db)) [
      | inl n ↦ absurd (cc (rw (n, metered_subscription) at metered))
      | inr (_, l) ↦ elim (Option-cases (get_active_subscription account.id db)) [
        | inl n ↦ absurd (cc (rw (l, n, metered_subscription) at metered))
        | inr (sub, a) ↦ elim (Option-cases sub.subscription) [
          | inl n ↦ absurd (cc (rw (l, a, n, metered_subscription) at metered))
          | inr (s, t) ↦ (
            plan_context link.billing_account_id sub.plan s,
            rw
                (
                  found,
                  resolve_team_plan,
                  subst (λ k. get_active_subscription k db ≡ some sub) same a,
                  t,
                )
                refl,
            sym same,
          )
        ]
      ]
    ]
