-- ===== src/Api/Billing/Quota.antt =====
-- billing.py: that the quota checks bound what the ledger and the videos add up to afterwards.
use Prim.Native.String.{String}
use nextballup.Prelude.{
  ℕ, zero, suc, ◌+◌, ◌*◌, ◌≤◌, ◌≡◌, refl, true, Option, none, some, List, [], ◌∷◌, arith, ◌==◌, inl,
  inr, Bool-cases, ltb→lt, leb→le, ==→eq, or_else, filter_where, find_where,
}
use nextballup.Prelude.Int.{ℤ, pos, ◌+ℤ◌, max_zero}
use nextballup.Db.{Db, Plan, Subscription, Video, AccountTeamLink}
use nextballup.Api.Billing.{
  counts_for, sum_quantity, videos_used_this_period, record_usage, upload_key, upload_quota_of,
  storage_quota_of, link_count, video_bytes, storage_bytes_reserved, metered_subscription,
  upload_check, storage_check, sum_bytes,
}

max_zero_step : (z : ℤ) → max_zero (pos 1 +ℤ z) ≤ max_zero z + 1
unfolding ◌+ℤ◌
max_zero_step z = ground arith

max_zero_up : (z : ℤ) → max_zero z ≤ max_zero (pos 1 +ℤ z)
unfolding ◌+ℤ◌
max_zero_up z = ground arith

-- One more initiated upload raises the count by at most one.
pub videos_used-record_usage :
    (account_id period_start : ℕ) (team video : Option ℕ) (reason : Option String) (db : Db)
    → videos_used_this_period account_id period_start
        (record_usage account_id upload_key (pos 1) team video reason db)
      ≤ videos_used_this_period account_id period_start db + 1
unfolding videos_used_this_period record_usage filter_where
videos_used-record_usage account_id period_start team video reason db = ground (
  arith,
  max_zero_step (sum_quantity (filter_where (counts_for account_id period_start) db.usage)),
)

metered-record_usage :
    (account_id : ℕ) (key : String) (n : ℤ) (team video : Option ℕ) (reason : Option String)
    (db : Db)
    → metered_subscription account_id (record_usage account_id key n team video reason db)
      ≡ metered_subscription account_id db
unfolding metered_subscription record_usage
metered-record_usage account_id key n team video reason db = refl

upload_check_respected :
    (m : Option (Option Plan × Subscription)) (account_id : ℕ) (team video : Option ℕ)
    (reason : Option String) (db : Db) {limit : ℕ}
    → (upload_check m account_id db).allowed ≡ true
    → (upload_check m account_id db).limit ≡ some limit
    → let after =
        upload_check m account_id
          (record_usage account_id upload_key (pos 1) team video reason db) in
      (after.limit ≡ some limit) × (after.used ≤ limit)
unfolding upload_check
upload_check_respected none account_id team video reason db ok same = cc
upload_check_respected (some (plan, s)) account_id team video reason db {limit} ok same = (
  same,
  ground (
    arith,
    ltb→lt used limit (rw same at ok),
    videos_used-record_usage account_id s.current_period_start team video reason db,
  ),
)
  where
    used : ℕ
    used = videos_used_this_period account_id s.current_period_start db

-- When the check allows an upload under a limit, recording the upload does not pass the limit, and
-- the limit stays what it was.
pub upload_quota_respected :
    (account_id : ℕ) (team video : Option ℕ) (reason : Option String) (db : Db) {limit : ℕ}
    → (upload_quota_of account_id db).allowed ≡ true
    → (upload_quota_of account_id db).limit ≡ some limit
    → let after =
        upload_quota_of account_id
          (record_usage account_id upload_key (pos 1) team video reason db) in
      (after.limit ≡ some limit) × (after.used ≤ limit)
unfolding upload_quota_of
upload_quota_respected account_id team video reason db ok same =
    rw (metered-record_usage account_id upload_key (pos 1) team video reason db) (
      upload_check_respected (metered_subscription account_id db) account_id team video reason db ok
        same)

-- UNIQUE (team_id) of `account_team_links`.
abbrev pub UniqueTeams : List AccountTeamLink → Type 0
UniqueTeams [] = Unit
UniqueTeams (l ∷ ls) = (find_where (λ m. m.team_id == l.team_id) ls ≡ none) × UniqueTeams ls

no_link :
    (account_id team_id : ℕ) (ls : List AccountTeamLink)
    → find_where (λ m. m.team_id == team_id) ls ≡ none
    → link_count account_id team_id ls ≡ 0
unfolding link_count find_where
no_link account_id team_id [] e = refl
no_link account_id team_id (l ∷ ls) e = ground (arith, no_link account_id team_id ls)

link_count_bound :
    (account_id team_id : ℕ) (ls : List AccountTeamLink)
    → UniqueTeams ls
    → link_count account_id team_id ls ≤ 1
unfolding link_count
link_count_bound account_id team_id [] u = omega arith
link_count_bound account_id team_id (l ∷ ls) u = elim (Bool-cases (l.team_id == team_id)) [
  | inl e ↦ ground (arith, no_link account_id team_id ls (rw (==→eq l.team_id team_id e) at u.0))
  | inr n ↦ ground (arith, link_count_bound account_id team_id ls u.1)
]

mul_bound : (x c : ℕ) → c ≤ 1 → x * c ≤ x
mul_bound x zero h = omega arith
mul_bound x (suc zero) h = omega arith
mul_bound x (suc (suc c)) h = absurd (omega arith)

video_bytes_bound :
    (account_id : ℕ) (ls : List AccountTeamLink) (v : Video)
    → UniqueTeams ls
    → video_bytes account_id ls v ≤ or_else v.file_size_bytes 0
unfolding video_bytes
video_bytes_bound account_id ls v u = ground (
  arith,
  mul_bound (or_else v.file_size_bytes 0) (link_count account_id v.team_id ls)
      (link_count_bound account_id v.team_id ls u),
)

storage_check_respected :
    (m : Option (Option Plan × Subscription)) (account_id bytes : ℕ) (v : Video) (db : Db)
    {limit : ℕ}
    → UniqueTeams db.links
    → or_else v.file_size_bytes 0 ≤ bytes
    → (storage_check m account_id bytes db).allowed ≡ true
    → (storage_check m account_id bytes db).limit ≡ some limit
    → storage_bytes_reserved account_id (record db { videos = v ∷ db.videos }) ≤ limit
unfolding storage_check storage_bytes_reserved sum_bytes
storage_check_respected none account_id bytes v db u small ok same = cc
storage_check_respected (some (plan, s)) account_id bytes v db {limit} u small ok same = ground (
  arith,
  leb→le (sum_bytes account_id db.links db.videos + bytes) limit (rw same at ok),
  video_bytes_bound account_id db.links v u,
)

-- When the check allows `bytes` more under a limit, adding a video of at most that size keeps the
-- reserved storage of the account within the limit, given that a team has one billing link.
pub storage_quota_respected :
    (account_id bytes : ℕ) (v : Video) (db : Db) {limit : ℕ}
    → UniqueTeams db.links
    → or_else v.file_size_bytes 0 ≤ bytes
    → (storage_quota_of account_id bytes db).allowed ≡ true
    → (storage_quota_of account_id bytes db).limit ≡ some limit
    → storage_bytes_reserved account_id (record db { videos = v ∷ db.videos }) ≤ limit
unfolding storage_quota_of
storage_quota_respected account_id bytes v db u small ok same =
    storage_check_respected (metered_subscription account_id db) account_id bytes v db u small ok
      same
