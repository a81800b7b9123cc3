-- ===== src/Api/Billing/Ledger.antt =====
-- billing.py: the usage ledger, with the release of a reservation.
use Prim.Native.String.{String}
use text.Mathlib.Text.{◌==◌ as str_eq}
use nextballup.Prelude.{
  ℕ, ◌+◌, ◌*◌, Bool, true, false, ◌&&◌, Option, none, some, List, [], ◌∷◌, ◌==◌, leb, if◌then◌else◌,
  sql_eq, filter_where, or_else,
}
use nextballup.Prelude.Int.{ℤ, pos, negsuc, ◌+ℤ◌, max_zero}
use nextballup.Core.Enums.{VideoStatus, status_eq}
use nextballup.Db.{Db, Video, AccountTeamLink, UsageEvent}
use nextballup.Api.Billing.Plans.{resolve_team_plan}

-- `video.upload.initiated` rows of the account since the period began, floored at zero.
abbrev pub upload_key : String
upload_key = "video.upload.initiated"

unfoldable pub sum_quantity : List UsageEvent → ℤ
sum_quantity [] = pos 0
sum_quantity (e ∷ es) = e.quantity +ℤ sum_quantity es

unfoldable pub counts_for : ℕ → ℕ → UsageEvent → Bool
counts_for account_id period_start e =
    e.billing_account_id == account_id
    && (str_eq e.event_key upload_key && leb period_start e.occurred_at)

unfoldable pub videos_used_this_period : ℕ → ℕ → Db → ℕ
unfolding sum_quantity counts_for
videos_used_this_period account_id period_start db =
    max_zero (sum_quantity (filter_where (counts_for account_id period_start) db.usage))

-- The rows of `videos JOIN account_team_links` for one video: a row for each matching link.
unfoldable pub link_count : ℕ → ℕ → List AccountTeamLink → ℕ
link_count account_id team_id [] = 0
link_count account_id team_id (l ∷ ls) =
    (if l.billing_account_id == account_id && l.team_id == team_id then 1 else 0)
    + link_count account_id team_id ls

unfoldable pub video_bytes : ℕ → List AccountTeamLink → Video → ℕ
unfolding link_count
video_bytes account_id links v =
    if status_eq v.status VideoStatus.failed
    then 0
    else or_else v.file_size_bytes 0 * link_count account_id v.team_id links

unfoldable pub sum_bytes : ℕ → List AccountTeamLink → List Video → ℕ
unfolding video_bytes
sum_bytes account_id links [] = 0
sum_bytes account_id links (v ∷ vs) = video_bytes account_id links v + sum_bytes account_id links vs

unfoldable pub storage_bytes_reserved : ℕ → Db → ℕ
unfolding sum_bytes
storage_bytes_reserved account_id db = sum_bytes account_id db.links db.videos

-- `quantity` stands before the keyword arguments that default to None.
unfoldable pub record_usage : ℕ → String → ℤ → Option ℕ → Option ℕ → Option String → Db → Db
record_usage account_id event_key quantity team_id video_id reason db =
    let event : UsageEvent = record {
      billing_account_id = account_id;
      team_id = team_id;
      event_key = event_key;
      quantity = quantity;
      occurred_at = db.now;
      video_id = video_id;
      reason = reason;
    } in
    record db { usage = event ∷ db.usage }

-- The net reservation of one video in the ledger.
reserves : ℕ → ℕ → ℕ → UsageEvent → Bool
reserves account_id team_id video_id e =
    e.billing_account_id == account_id
    && (sql_eq e.team_id team_id && (str_eq e.event_key upload_key && sql_eq e.video_id video_id))

unfoldable pub net_reserved : ℕ → ℕ → ℕ → Db → ℤ
unfolding reserves sum_quantity
net_reserved account_id team_id video_id db =
    sum_quantity (filter_where (reserves account_id team_id video_id) db.usage)

-- `net_reserved <= 0`
abbrev pub is_spent : ℤ → Bool
is_spent (pos n) = n == 0
is_spent (negsuc _) = true

-- The part below the plan's resolution, for the account that it gives.
unfoldable pub release_from : ℕ → ℕ → ℕ → String → Db → Bool × Db
unfolding net_reserved record_usage
release_from account_id team_id video_id reason db =
    if is_spent (net_reserved account_id team_id video_id db) then (false, db) else (
      true,
      record_usage account_id upload_key (negsuc 0) (some team_id) (some video_id) (some reason) db,
    )

-- Returns whether a compensating event was written, with the state.
unfoldable pub release_video_upload_quota_reservation : ℕ → ℕ → String → Db → Bool × Db
unfolding release_from
release_video_upload_quota_reservation team_id video_id reason db =
    elim (resolve_team_plan team_id db) [
      | none ↦ (false, db)
      | some ctx ↦ release_from ctx.account_id team_id video_id reason db
    ]
