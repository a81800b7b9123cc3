-- ===== src/Db/Billing.antt =====
-- packages/db/src/nextballup_db/models/billing.py: plans, accounts, links, subscriptions, usage.
-- The JSON of `plan_quotas_at_activation` is a record, since its keys are the fixed
-- `_PLAN_SNAPSHOT_FIELDS` of billing.py and `features`.
use Prim.Native.String.{String}
use nextballup.Prelude.{ℕ, Bool, Option, List}
use nextballup.Prelude.Int.{ℤ}
use nextballup.Core.Text.{Text}
use nextballup.Core.Enums.{BillingAccountStatus, SubscriptionStatus}

-- The flags of the `features` column, by key.
abbrev pub Features : Type 0
Features = List (String × Bool)

pub record PlanQuotas : Type 0 where
  pub max_videos_per_month : Option ℕ
  pub max_storage_gb : Option ℕ
  pub max_teams : Option ℕ
  pub raw_video_retention_days : Option ℕ
  pub features : Features

pub record Plan : Type 0 where
  pub id : ℕ
  pub code : Text
  pub tier : ℕ
  pub quotas : PlanQuotas

pub record BillingAccount : Type 0 where
  pub id : ℕ
  pub owner_user_id : Option ℕ
  pub status : BillingAccountStatus
  pub deleted_at : Option ℕ

pub record AccountTeamLink : Type 0 where
  pub billing_account_id : ℕ
  pub team_id : ℕ

pub record Subscription : Type 0 where
  pub billing_account_id : ℕ
  pub plan_id : ℕ
  pub status : SubscriptionStatus
  pub current_period_start : ℕ
  pub current_period_end : ℕ
  pub plan_code_at_activation : Option Text
  pub plan_tier_at_activation : Option ℕ
  pub plan_quotas_at_activation : Option PlanQuotas

-- `event_key` is a fixed text; `video_id` and `reason` are the keys of `event_metadata`.
pub record UsageEvent : Type 0 where
  pub billing_account_id : ℕ
  pub team_id : Option ℕ
  pub event_key : String
  pub quantity : ℤ
  pub occurred_at : ℕ
  pub video_id : Option ℕ
  pub reason : Option String
