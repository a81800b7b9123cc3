-- ===== src/Api/Billing/Plans.antt =====
-- billing.py: the account of a team, with its subscription and its plan.
use mathlib.Core.Option
use nextballup.Prelude.{
  ℕ, ◌+◌, ◌*◌, Bool, true, false, ◌&&◌, Option, none, some, List, [], ◌∷◌, ◌==◌, ltb, leb,
  if◌then◌else◌, is_none, find_where, any_where, filter_where, or_else,
}
use nextballup.Core.Text.{Text, text_eq}
use nextballup.Core.Enums.{BillingAccountStatus, SubscriptionStatus}
use nextballup.Core.Errors.{ErrorClass, ErrorCode}
use nextballup.Db.{Db, Plan, PlanQuotas, BillingAccount, Subscription}
use nextballup.Api.Result.{Result, ok, err, ◌>>◌, raise_if}

-- `_subscription_plan_code`
unfoldable pub subscription_plan_code : Option Subscription → Option Plan → Option Text
subscription_plan_code none plan = Option.map (λ p. p.code) plan
subscription_plan_code (some s) plan = elim s.plan_code_at_activation [
  | some c ↦ some c
  | none ↦ Option.map (λ p. p.code) plan
]

-- `_subscription_plan_tier`
subscription_plan_tier : Option Subscription → Option Plan → ℕ
subscription_plan_tier none plan = or_else (Option.map (λ p. p.tier) plan) 0
subscription_plan_tier (some s) plan =
    or_else s.plan_tier_at_activation (or_else (Option.map (λ p. p.tier) plan) 0)

pub record AccountSubscription : Type 0 where
  pub account : BillingAccount
  pub subscription : Option Subscription
  pub plan : Option Plan

abbrev is_account_active : BillingAccount → Bool
is_account_active a = elim a.status [
  | BillingAccountStatus.active ↦ is_none a.deleted_at
  | _ ↦ false
]

-- `status in (TRIALING, ACTIVE)`
abbrev is_entitled : SubscriptionStatus → Bool
is_entitled SubscriptionStatus.trialing = true
is_entitled SubscriptionStatus.active = true
is_entitled _ = false

-- The first row of ORDER BY key DESC; of rows with one key the table's first, where SQL may take any.
later_of {ℓ} : {A : Type ℓ} → (A → ℕ) → A → Option A → Option A
later_of key x none = some x
later_of key x (some y) = if ltb (key x) (key y) then some y else some x

unfoldable pub latest_by {ℓ} : {A : Type ℓ} → (A → ℕ) → List A → Option A
unfolding later_of
latest_by key [] = none
latest_by key (x ∷ xs) = later_of key x (latest_by key xs)

unfoldable pub get_active_subscription : ℕ → Db → Option AccountSubscription
unfolding latest_by
get_active_subscription billing_account_id db =
    elim (find_where (λ a. a.id == billing_account_id) db.accounts) [
      | none ↦ none
      | some account ↦
          if is_account_active account
          then (let sub =
                latest_by (λ s. s.current_period_start)
                  (filter_where
                    (λ s. s.billing_account_id == billing_account_id && is_entitled s.status)
                    db.subscriptions) in
              some (record {
                account = account;
                subscription = sub;
                plan = Option.bind sub (λ s. find_where (λ p. p.id == s.plan_id) db.plans);
              }))
          else none
    ]

-- `_lock_active_billing_account`
unfoldable pub lock_active_billing_account : ℕ → Db → Option BillingAccount
lock_active_billing_account billing_account_id db =
    find_where (λ a. a.id == billing_account_id && is_account_active a) db.accounts

-- The columns that `numeric_entitlement` is asked for.
pub data QuotaAttribute : Type 0 where
  max_videos_per_month max_storage_gb max_teams raw_video_retention_days : QuotaAttribute

abbrev quota_of : QuotaAttribute → PlanQuotas → Option ℕ
quota_of QuotaAttribute.max_videos_per_month q = q.max_videos_per_month
quota_of QuotaAttribute.max_storage_gb q = q.max_storage_gb
quota_of QuotaAttribute.max_teams q = q.max_teams
quota_of QuotaAttribute.raw_video_retention_days q = q.raw_video_retention_days

-- The snapshot that a subscription took at activation, if any.
abbrev snapshot : Option Subscription → Option PlanQuotas
snapshot none = none
snapshot (some s) = s.plan_quotas_at_activation

unfoldable pub numeric_entitlement : Option Plan → QuotaAttribute → Option Subscription → Option ℕ
numeric_entitlement plan attribute subscription = elim (snapshot subscription) [
  | some q ↦ quota_of attribute q
  | none ↦ Option.bind plan (λ p. quota_of attribute p.quotas)
]

-- `_plan_quotas_snapshot` is the plan's quotas and features as they stand.
plan_quotas_snapshot : Plan → PlanQuotas
plan_quotas_snapshot plan = plan.quotas

unfoldable pub default_subscription : ℕ → Plan → ℕ → Subscription
unfolding plan_quotas_snapshot
default_subscription account_id plan now = record {
  billing_account_id = account_id;
  plan_id = plan.id;
  status = SubscriptionStatus.active;
  current_period_start = now;
  current_period_end = now + 30 * 86400;
  plan_code_at_activation = some plan.code;
  plan_tier_at_activation = some plan.tier;
  plan_quotas_at_activation = some (plan_quotas_snapshot plan);
}

-- The part below "No link": a new account, its link and a subscription to the default plan. A second
-- link of one team breaks the UNIQUE constraint when the session flushes.
unfoldable pub provision_account : ℕ → Option ℕ → Text → ℕ → Db → Result (BillingAccount × Db)
unfolding default_subscription
provision_account team_id owner_user_id default_plan_code account_id db = do
  let account : BillingAccount = record {
    id = account_id;
    owner_user_id = owner_user_id;
    status = BillingAccountStatus.active;
    deleted_at = none;
  }
  raise_if (any_where (λ l. l.team_id == team_id) db.links) ErrorClass.runtime_error
      ErrorCode.internal_error
  elim (find_where (λ p. text_eq p.code default_plan_code) db.plans) [
    | none ↦
        err (record { error_class = ErrorClass.runtime_error; code = ErrorCode.internal_error })
    | some plan ↦ ok (
      account,
      record db {
        accounts = account ∷ db.accounts;
        links = record { billing_account_id = account_id; team_id = team_id } ∷ db.links;
        subscriptions = default_subscription account_id plan db.now ∷ db.subscriptions;
      },
    )
  ]

-- The account of a team's link, if both are there.
unfoldable pub linked_account : ℕ → Db → Option BillingAccount
linked_account team_id db =
    Option.bind (find_where (λ l. l.team_id == team_id) db.links)
      (λ l. find_where (λ a. a.id == l.billing_account_id) db.accounts)

unfoldable pub get_or_create_account_for_team :
    ℕ → Option ℕ → Text → ℕ → Db → Result (BillingAccount × Db)
unfolding provision_account linked_account
get_or_create_account_for_team team_id owner_user_id default_plan_code account_id db = do
  raise_if (is_none (find_where (λ t. t.id == team_id) db.teams)) ErrorClass.runtime_error
      ErrorCode.internal_error
  elim (linked_account team_id db) [
    | some account ↦ ok (account, db)
    | none ↦ provision_account team_id owner_user_id default_plan_code account_id db
  ]

pub record TeamPlanContext : Type 0 where
  pub account_id : ℕ
  pub plan : Option Plan
  pub plan_code : Option Text
  pub plan_tier : ℕ
  pub raw_video_retention_days : Option ℕ

abbrev pub plan_context : ℕ → Option Plan → Subscription → TeamPlanContext
unfolding subscription_plan_code subscription_plan_tier numeric_entitlement
plan_context account_id plan s = record {
  account_id = account_id;
  plan = plan;
  plan_code = subscription_plan_code (some s) plan;
  plan_tier = subscription_plan_tier (some s) plan;
  raw_video_retention_days =
      numeric_entitlement plan QuotaAttribute.raw_video_retention_days (some s);
}

unfoldable pub resolve_team_plan : ℕ → Db → Option TeamPlanContext
unfolding subscription_plan_code subscription_plan_tier get_active_subscription numeric_entitlement
resolve_team_plan team_id db = elim (find_where (λ l. l.team_id == team_id) db.links) [
  | none ↦ none
  | some link ↦ elim (get_active_subscription link.billing_account_id db) [
    | none ↦ none
    | some sub ↦ Option.map (plan_context link.billing_account_id sub.plan) sub.subscription
  ]
]

-- `artifact_meets_entitlement`
unfoldable pub artifact_meets_entitlement : Option Plan → ℕ → Bool
artifact_meets_entitlement none min_plan_tier = leb min_plan_tier 0
artifact_meets_entitlement (some plan) min_plan_tier = leb min_plan_tier plan.tier
