-- ===== src/Api/Billing.antt =====
-- apps/api/src/nextballup_api/billing.py: the account of a team, its subscription and plan, quota
-- checks and the usage ledger. A function returns the state of its open transaction; the caller
-- commits it, and a raised error rolls it back. The account id that `uuid.uuid4` would give is an
-- argument. The provider classes and the RLS context calls are not modelled.
mod Plans
mod Ledger
pub mod Quota
pub mod Usage
pub mod Accounts
pub mod Reserve
unfoldable pub use Plans.*
unfoldable pub use Ledger.*
use Prim.Native.String.{String}
use text.Mathlib.Text.{◌==◌ as str_eq}
use mathlib.Core.Option
use nextballup.Prelude.{
  ℕ, ◌+◌, ◌*◌, Bool, true, false, not, ◌&&◌, Option, none, some, List, [], ◌∷◌, ◌==◌, ltb, leb,
  if◌then◌else◌, is_none, sql_eq, find_where, any_where, filter_where, or_else,
}
use nextballup.Prelude.Int.{ℤ, pos, negsuc, ◌+ℤ◌, max_zero}
use nextballup.Core.Text.{Text, text_eq}
use nextballup.Core.Enums.{BillingAccountStatus, SubscriptionStatus, VideoStatus, status_eq}
use nextballup.Core.Errors.{ErrorClass, ErrorCode}
use nextballup.Db.{
  Db, Video, Plan, PlanQuotas, BillingAccount, AccountTeamLink, Subscription, UsageEvent,
}
use nextballup.Api.Result.{Result, ok, err, ◌>>=◌, ◌>>◌, raise_if}

pub data QuotaKey : Type 0 where
  videos_per_month storage_bytes : QuotaKey

pub record QuotaCheck : Type 0 where
  pub plan_code : Option Text
  pub quota_key : QuotaKey
  pub used : ℕ
  pub limit : Option ℕ
  pub allowed : Bool

abbrev quota_denied : QuotaKey → QuotaCheck
quota_denied key = record {
  plan_code = none;
  quota_key = key;
  used = 0;
  limit = some 0;
  allowed = false;
}

-- The subscription that both quota checks read, after the account is locked.
unfoldable pub metered_subscription : ℕ → Db → Option (Option Plan × Subscription)
unfolding lock_active_billing_account get_active_subscription
metered_subscription account_id db = elim (lock_active_billing_account account_id db) [
  | none ↦ none
  | some _ ↦ elim (get_active_subscription account_id db) [
    | none ↦ none
    | some sub ↦ Option.map (λ s. (sub.plan, s)) sub.subscription
  ]
]

-- `limit is None or used < limit`
abbrev below_limit : ℕ → Option ℕ → Bool
below_limit used none = true
below_limit used (some limit) = ltb used limit

-- `limit is None or total <= limit`
abbrev pub within_limit : ℕ → Option ℕ → Bool
within_limit total none = true
within_limit total (some limit) = leb total limit

upload_check : Option (Option Plan × Subscription) → ℕ → Db → QuotaCheck
unfolding numeric_entitlement subscription_plan_code
upload_check none account_id db = quota_denied QuotaKey.videos_per_month
upload_check (some (plan, s)) account_id db =
    let limit = numeric_entitlement plan QuotaAttribute.max_videos_per_month (some s) in
    let used = videos_used_this_period account_id s.current_period_start db in
    record {
      plan_code = subscription_plan_code (some s) plan;
      quota_key = QuotaKey.videos_per_month;
      used = used;
      limit = limit;
      allowed = below_limit used limit;
    }

unfoldable pub upload_quota_of : ℕ → Db → QuotaCheck
unfolding upload_check
upload_quota_of account_id db = upload_check (metered_subscription account_id db) account_id db

storage_check : Option (Option Plan × Subscription) → ℕ → ℕ → Db → QuotaCheck
unfolding numeric_entitlement subscription_plan_code
storage_check none account_id additional_bytes db = quota_denied QuotaKey.storage_bytes
storage_check (some (plan, s)) account_id additional_bytes db =
    let limit =
      Option.map (λ gb. gb * 1024 * 1024 * 1024)
        (numeric_entitlement plan QuotaAttribute.max_storage_gb (some s)) in
    let used = storage_bytes_reserved account_id db in
    record {
      plan_code = subscription_plan_code (some s) plan;
      quota_key = QuotaKey.storage_bytes;
      used = used;
      limit = limit;
      allowed = within_limit (used + additional_bytes) limit;
    }

unfoldable pub storage_quota_of : ℕ → ℕ → Db → QuotaCheck
unfolding storage_check
storage_quota_of account_id additional_bytes db =
    storage_check (metered_subscription account_id db) account_id additional_bytes db

unfoldable pub check_video_upload_quota : ℕ → ℕ → Text → ℕ → Db → Result (QuotaCheck × Db)
unfolding get_or_create_account_for_team upload_quota_of
check_video_upload_quota team_id owner_user_id default_plan_code account_id db = do
  (account, db') ←
      get_or_create_account_for_team team_id (some owner_user_id) default_plan_code account_id db
  ok (upload_quota_of account.id db', db')

unfoldable pub check_video_storage_quota : ℕ → ℕ → Text → ℕ → ℕ → Db → Result (QuotaCheck × Db)
unfolding get_or_create_account_for_team storage_quota_of
check_video_storage_quota team_id owner_user_id default_plan_code account_id additional_bytes db =
    do
      (account, db') ←
          get_or_create_account_for_team team_id (some owner_user_id) default_plan_code account_id
            db
      ok (storage_quota_of account.id additional_bytes db', db')
