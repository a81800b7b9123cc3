-- ===== src/Api/Billing/Usage.antt =====
-- billing.py: the compensating event of `release_video_upload_quota_reservation`.
use Prim.Native.String.{String}
use nextballup.Prelude.{
  ℕ, ◌-◌, ◌≤◌, ◌≡◌, refl, ◌∙◌, true, false, Option, some, arith, ==_refl, inl, inr, Bool-cases,
  filter_where, le→leb,
}
use nextballup.Prelude.Int.{ℤ, pos, negsuc, ◌+ℤ◌, ◌≤ℤ◌, max_zero}
use nextballup.Db.{Db}
use nextballup.Api.Billing.{
  TeamPlanContext, resolve_team_plan, net_reserved, record_usage, upload_key, is_spent,
  release_from, sum_quantity, counts_for, release_video_upload_quota_reservation,
  videos_used_this_period,
}

-- The compensating event takes exactly one unit from the video's reservation.
pub net_reserved-release :
    (account_id team_id video_id : ℕ) (reason : String) (db : Db)
    → net_reserved account_id team_id video_id (
        record_usage account_id upload_key
          (negsuc 0)
          (some team_id)
          (some video_id)
          (some reason)
          db)
      ≡ negsuc 0 +ℤ net_reserved account_id team_id video_id db
unfolding net_reserved record_usage filter_where
net_reserved-release account_id team_id video_id reason db =
    rw (==_refl account_id, ==_refl team_id, ==_refl video_id)

resolve-record_usage :
    (team_id account_id : ℕ) (n : ℤ) (team video : Option ℕ) (reason : Option String) (db : Db)
    → resolve_team_plan team_id (record_usage account_id upload_key n team video reason db)
      ≡ resolve_team_plan team_id db
unfolding resolve_team_plan record_usage
resolve-record_usage team_id account_id n team video reason db = refl

minus_one_spent : (z : ℤ) → z ≤ℤ pos 1 → is_spent (negsuc 0 +ℤ z) ≡ true
unfolding ◌+ℤ◌
minus_one_spent z h = ground arith

minus_one_nonneg : (z : ℤ) → is_spent z ≡ false → pos 0 ≤ℤ negsuc 0 +ℤ z
unfolding ◌+ℤ◌
minus_one_nonneg z h = ground arith

minus_one_max : (z : ℤ) → max_zero (negsuc 0 +ℤ z) ≡ max_zero z - 1
unfolding ◌+ℤ◌
minus_one_max z = ground arith

pub release-resolved :
    (team_id video_id : ℕ) (reason : String) (db : Db) {ctx : TeamPlanContext}
    → resolve_team_plan team_id db ≡ some ctx
    → release_video_upload_quota_reservation team_id video_id reason db
      ≡ release_from ctx.account_id team_id video_id reason db
unfolding release_video_upload_quota_reservation
release-resolved team_id video_id reason db resolved =
    rw (resolved, release_video_upload_quota_reservation)

release_from-resolved :
    (account_id team_id video_id : ℕ) (reason : String) (db : Db)
    → resolve_team_plan team_id (release_from account_id team_id video_id reason db).1
      ≡ resolve_team_plan team_id db
unfolding release_from
release_from-resolved account_id team_id video_id reason db =
    elim (Bool-cases (is_spent (net_reserved account_id team_id video_id db))) [
      | inl e ↦ rw e
      | inr e ↦ rw e (
          resolve-record_usage team_id account_id (negsuc 0) (some team_id) (some video_id)
            (some reason) db)
    ]

release_from_once :
    (account_id team_id video_id : ℕ) (reason again : String) (db : Db)
    → net_reserved account_id team_id video_id db ≤ℤ pos 1
    → let after = (release_from account_id team_id video_id reason db).1 in
      release_from account_id team_id video_id again after ≡ (false, after)
unfolding release_from
release_from_once account_id team_id video_id reason again db one =
    elim (Bool-cases (is_spent (net_reserved account_id team_id video_id db))) [
      | inl e ↦ rw e (rw e)
      | inr e ↦ rw e (
          rw (net_reserved-release account_id team_id video_id reason db)
            (rw (minus_one_spent (net_reserved account_id team_id video_id db) one)))
    ]

-- For a team whose plan resolves, the release of a video's reservation of at most one unit happens
-- once: a second release, for any reason, writes nothing.
pub release_once :
    (team_id video_id : ℕ) (reason again : String) (db : Db) {ctx : TeamPlanContext}
    → resolve_team_plan team_id db ≡ some ctx
    → net_reserved ctx.account_id team_id video_id db ≤ℤ pos 1
    → let after = (release_video_upload_quota_reservation team_id video_id reason db).1 in
      release_video_upload_quota_reservation team_id video_id again after ≡ (false, after)
release_once team_id video_id reason again db {ctx} resolved one =
    rw (release-resolved team_id video_id reason db resolved) (
      release-resolved team_id video_id again _
        (release_from-resolved ctx.account_id team_id video_id reason db ∙ resolved)
      ∙ release_from_once ctx.account_id team_id video_id reason again db one)

-- For a team whose plan resolves, a release never takes a video's net reservation from zero or
-- above to below zero.
pub release_nonneg :
    (team_id video_id : ℕ) (reason : String) (db : Db) {ctx : TeamPlanContext}
    → resolve_team_plan team_id db ≡ some ctx
    → pos 0 ≤ℤ net_reserved ctx.account_id team_id video_id db
    → pos 0
      ≤ℤ net_reserved ctx.account_id team_id video_id
          (release_video_upload_quota_reservation team_id video_id reason db).1
unfolding release_from
release_nonneg team_id video_id reason db {ctx} resolved h =
    rw (release-resolved team_id video_id reason db resolved)
      (elim (Bool-cases (is_spent (net_reserved ctx.account_id team_id video_id db))) [
        | inl e ↦ rw e h
        | inr e ↦ rw e (
            rw (net_reserved-release ctx.account_id team_id video_id reason db)
              (minus_one_nonneg (net_reserved ctx.account_id team_id video_id db) e))
      ])

videos_used-release :
    (account_id team_id video_id period_start : ℕ) (reason : String) (db : Db)
    → period_start ≤ db.now
    → videos_used_this_period account_id period_start (
        record_usage account_id upload_key
          (negsuc 0)
          (some team_id)
          (some video_id)
          (some reason)
          db)
      ≡ videos_used_this_period account_id period_start db - 1
unfolding videos_used_this_period record_usage filter_where
videos_used-release account_id team_id video_id period_start reason db h =
    rw (==_refl account_id, le→leb period_start db.now h)
      (minus_one_max (sum_quantity (filter_where (counts_for account_id period_start) db.usage)))

-- A release of a reservation that is not spent, for a team whose plan resolves, lowers the count
-- of every period that began by now by one unit, stopping at zero, whichever period the upload was
-- initiated in.
pub release_credits_current_period :
    (team_id video_id period_start : ℕ) (reason : String) (db : Db) {ctx : TeamPlanContext}
    → resolve_team_plan team_id db ≡ some ctx
    → period_start ≤ db.now
    → is_spent (net_reserved ctx.account_id team_id video_id db) ≡ false
    → videos_used_this_period ctx.account_id period_start
        (release_video_upload_quota_reservation team_id video_id reason db).1
      ≡ videos_used_this_period ctx.account_id period_start db - 1
unfolding release_from
release_credits_current_period team_id video_id period_start reason db {ctx} resolved h e =
    rw (release-resolved team_id video_id reason db resolved)
      (rw e (videos_used-release ctx.account_id team_id video_id period_start reason db h))
