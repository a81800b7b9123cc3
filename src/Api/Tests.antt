-- ===== src/Api/Tests.antt =====
-- The theorems on billing, permissions and the cancellation, at small databases.
mod Videos
mod Teams
mod Initiate
mod Events
mod Secrets
use mathlib.Core.Option
use nextballup.Prelude.{
  ◌-◌, ◌≤◌, ◌≡◌, ◌⊎◌, refl, true, false, none, some, [], ◌∷◌, arith, find_where, filter_where,
}
use nextballup.Prelude.Int.{pos, negsuc, ◌+ℤ◌, ◌≤ℤ◌}
use nextballup.Core.Text.{codes}
use nextballup.Core.Enums.{UserRole, TeamRole, BillingAccountStatus, SubscriptionStatus, is_admin}
use nextballup.Db.{Db, User, TeamMembership, Plan, PlanQuotas, BillingAccount, Subscription}
use nextballup.Worker.Failure.{claimed_job_still_active}
use nextballup.Worker.Tests.{film, running_job, store}
use nextballup.Worker.AbandonedUploads.{abandon_video}
use nextballup.Worker.AbandonedUploads.Late.{abandon_video_late}
use nextballup.Api.Permissions.{get_team_membership, require_team_coach, is_coach_role}
use nextballup.Api.Billing.{
  TeamPlanContext, resolve_team_plan, net_reserved, record_usage, upload_key, upload_quota_of,
  storage_quota_of, storage_bytes_reserved, metered_subscription,
  release_video_upload_quota_reservation, videos_used_this_period,
}
use nextballup.Api.Billing.Quota.{upload_quota_respected, storage_quota_respected}
use nextballup.Api.Billing.Usage.{release_once, release_nonneg, release_credits_current_period}
use nextballup.Api.Cancel.{cancel_processing, cancel_job}
use nextballup.Api.Cancel.Revoked.{cancel_processing_revokes}

abbrev quotas : PlanQuotas
quotas = record {
  max_videos_per_month = some 3;
  max_storage_gb = some 1;
  max_teams = none;
  raw_video_retention_days = some 14;
  features = [];
}

abbrev plan : Plan
plan = record { id = 4; code = codes "club"; tier = 1; quotas = quotas }

abbrev account : BillingAccount
account = record {
  id = 2;
  owner_user_id = some 7;
  status = BillingAccountStatus.active;
  deleted_at = none;
}

abbrev subscription : Subscription
subscription = record {
  billing_account_id = 2;
  plan_id = 4;
  status = SubscriptionStatus.active;
  current_period_start = 50;
  current_period_end = 5000;
  plan_code_at_activation = some (codes "club");
  plan_tier_at_activation = some 1;
  plan_quotas_at_activation = some quotas;
}

-- Team 1 has one upload of the period on its account: video 1.
abbrev billed : Db
billed = record store {
  plans = plan ∷ [];
  accounts = account ∷ [];
  links = record { billing_account_id = 2; team_id = 1 } ∷ [];
  subscriptions = subscription ∷ [];
  usage =
      record {
        billing_account_id = 2;
        team_id = some 1;
        event_key = upload_key;
        quantity = pos 1;
        occurred_at = 60;
        video_id = some 1;
        reason = none;
      }
      ∷ [];
}

abbrev context : TeamPlanContext
context = record {
  account_id = 2;
  plan = some plan;
  plan_code = some (codes "club");
  plan_tier = 1;
  raw_video_retention_days = some 14;
}

abbrev pub coach : User
coach = record {
  id = 7;
  role = UserRole.coach;
  email = codes "c@x";
  password_hash = codes "h";
  is_active = true;
  is_verified = true;
  session_version = 0;
  parental_consent_on_file = true;
  date_of_birth_verified = true;
}

abbrev pub coaching : TeamMembership
coaching = record {
  team_id = 1;
  user_id = 7;
  team_role = TeamRole.head_coach;
  jersey_number = none;
  is_active = true;
}

abbrev staffed : Db
staffed = record store { memberships = coaching ∷ [] }

resolved : resolve_team_plan 1 billed ≡ some context
unfolding resolve_team_plan find_where filter_where Option.bind
resolved = refl

release_once_example :
    let after = (release_video_upload_quota_reservation 1 1 "deleted" billed).1 in
    release_video_upload_quota_reservation 1 1 "abandoned" after ≡ (false, after)
unfolding net_reserved filter_where ◌+ℤ◌
release_once_example = release_once 1 1 "deleted" "abandoned" billed resolved (ground arith)

release_credits_current_period_example :
    videos_used_this_period 2 90 (release_video_upload_quota_reservation 1 1 "deleted" billed).1
    ≡ videos_used_this_period 2 90 billed - 1
unfolding net_reserved filter_where ◌+ℤ◌
release_credits_current_period_example =
    release_credits_current_period 1 1 90 "deleted" billed resolved (omega arith) refl

cancel_processing_revokes_example :
    claimed_job_still_active 5 (some 9) (cancel_job coach film running_job staffed) ≡ false
unfolding cancel_processing find_where
cancel_processing_revokes_example =
    cancel_processing_revokes true coach 1 (codes "transcode") staffed refl (some 9)

abandon_video_late_example :
    let after = abandon_video film billed in
    (after.videos ≡ billed.videos)
    × (net_reserved 2 1 1 after ≡ negsuc 0 +ℤ net_reserved 2 1 1 billed)
unfolding find_where net_reserved filter_where ◌+ℤ◌
abandon_video_late_example = abandon_video_late film billed refl resolved refl
