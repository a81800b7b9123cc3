-- ===== src/Api/Billing/Reserve.antt =====
-- billing.py: the quotas of an account after the usage of an upload was recorded and its row inserted.
use Prim.Native.String.{String}
use nextballup.Prelude.{
  ℕ, ◌≤◌, ◌≡◌, refl, true, Option, none, some, ◌∷◌, arith, le→leb, inl, inr, Option-cases,
  filter_where, or_else,
}
use nextballup.Prelude.Int.{ℤ, pos}
use nextballup.Db.{Db, Video, AuditLog, Plan, Subscription}
use nextballup.Api.Billing.{
  metered_subscription, upload_check, storage_check, upload_quota_of, storage_quota_of,
  within_limit, record_usage, upload_key, videos_used_this_period, storage_bytes_reserved,
  counts_for,
}
use nextballup.Api.Billing.Quota.{UniqueTeams, upload_quota_respected, storage_quota_respected}

abbrev pub storage_key : String
storage_key = "video.storage.bytes_reserved"

pub allowed-metered :
    (account_id : ℕ) (db : Db)
    → (upload_quota_of account_id db).allowed ≡ true
    → (m : Option Plan × Subscription) × (metered_subscription account_id db ≡ some m)
unfolding upload_quota_of upload_check
allowed-metered account_id db e = elim (Option-cases (metered_subscription account_id db)) [
  | inl n ↦ absurd (cc (rw (n, upload_check) at e))
  | inr (m, h) ↦ (m, h)
]

videos_used-storage_key :
    (account_id period_start other : ℕ) (n : ℤ) (team video : Option ℕ) (reason : Option String)
    (db : Db)
    → videos_used_this_period account_id period_start
        (record_usage other storage_key n team video reason db)
      ≡ videos_used_this_period account_id period_start db
unfolding videos_used_this_period record_usage filter_where counts_for
videos_used-storage_key account_id period_start other n team video reason db = ground arith

-- The state of the transaction after the upload's row, its audit entry and its usage events.
abbrev pub reserved : ℕ → Option ℕ → Option ℕ → ℕ → Video → AuditLog → Db → Db
reserved account_id team video size v audit db =
    record_usage account_id storage_key (pos size) team video none (
      record_usage account_id upload_key (pos 1) team video none
        (record db { videos = v ∷ db.videos; audits = audit ∷ db.audits }))

module _ (account_id : ℕ) (team video : Option ℕ) (size : ℕ) (v : Video) (audit : AuditLog)
    (db : Db) where
  videos_used-reserved :
      (period_start : ℕ)
      → videos_used_this_period account_id period_start
          (reserved account_id team video size v audit db)
        ≡ videos_used_this_period account_id period_start
            (record_usage account_id upload_key (pos 1) team video none db)
  unfolding videos_used_this_period record_usage
  videos_used-reserved period_start =
      videos_used-storage_key account_id period_start account_id (pos size) team video none (
        record_usage account_id upload_key (pos 1) team video none
          (record db { videos = v ∷ db.videos; audits = audit ∷ db.audits }))

  upload_check-reserved :
      (m : Option (Option Plan × Subscription))
      → upload_check m account_id (reserved account_id team video size v audit db)
        ≡ upload_check m account_id (record_usage account_id upload_key (pos 1) team video none db)
  unfolding upload_check
  upload_check-reserved none = refl
  upload_check-reserved (some (plan, s)) = rw (videos_used-reserved s.current_period_start) refl

  upload_check-limit :
      (m : Option (Option Plan × Subscription))
      → (upload_check m account_id
          (record_usage account_id upload_key (pos 1) team video none db)).limit
        ≡ (upload_check m account_id db).limit
  unfolding upload_check
  upload_check-limit none = refl
  upload_check-limit (some (plan, s)) = refl

  metered-reserved :
      metered_subscription account_id (reserved account_id team video size v audit db)
      ≡ metered_subscription account_id db
  unfolding metered_subscription record_usage
  metered-reserved = refl

  metered-recorded :
      metered_subscription account_id
        (record_usage account_id upload_key (pos 1) team video none db)
      ≡ metered_subscription account_id db
  unfolding metered_subscription record_usage
  metered-recorded = refl

  upload_quota_of-reserved :
      upload_quota_of account_id (reserved account_id team video size v audit db)
      ≡ upload_quota_of account_id (record_usage account_id upload_key (pos 1) team video none db)
  unfolding upload_quota_of
  upload_quota_of-reserved =
      rw (metered-reserved, metered-recorded)
        (upload_check-reserved (metered_subscription account_id db))

  upload_quota_of-limit :
      (upload_quota_of account_id
        (record_usage account_id upload_key (pos 1) team video none db)).limit
      ≡ (upload_quota_of account_id db).limit
  unfolding upload_quota_of
  upload_quota_of-limit =
      rw metered-recorded (upload_check-limit (metered_subscription account_id db))

  pub upload_quota-reserved :
      (upload_quota_of account_id db).allowed ≡ true
      → within_limit
          (upload_quota_of account_id (reserved account_id team video size v audit db)).used
          (upload_quota_of account_id (reserved account_id team video size v audit db)).limit
        ≡ true
  upload_quota-reserved allowed =
      rw upload_quota_of-reserved (elim (Option-cases (upload_quota_of account_id db).limit) [
        | inl n ↦ rw (upload_quota_of-limit, n) refl
        | inr (limit, l) ↦
            let bound = upload_quota_respected account_id team video none db allowed l in
            rw bound.0 (le→leb _ limit bound.1)
      ])

  storage_check-used :
      (m : Option (Option Plan × Subscription))
      → (storage_check m account_id size db).allowed ≡ true
      → (storage_check m account_id 0 (reserved account_id team video size v audit db)).allowed
        ≡ within_limit
            (storage_bytes_reserved account_id (record db { videos = v ∷ db.videos }))
            (storage_check m account_id size db).limit
  unfolding storage_check storage_bytes_reserved record_usage
  storage_check-used none e = absurd (cc e)
  storage_check-used (some (plan, s)) e = ground arith

  pub storage_quota-reserved :
      UniqueTeams db.links
      → or_else v.file_size_bytes 0 ≤ size
      → (storage_quota_of account_id size db).allowed ≡ true
      → (storage_quota_of account_id 0 (reserved account_id team video size v audit db)).allowed
        ≡ true
  unfolding storage_quota_of
  storage_quota-reserved unique small allowed =
      rw (metered-reserved, storage_check-used (metered_subscription account_id db) allowed)
        (elim (Option-cases (storage_quota_of account_id size db).limit) [
          | inl n ↦ rw n refl
          | inr (limit, l) ↦
              rw l (
                le→leb _ limit
                  (storage_quota_respected account_id size v db unique small allowed l))
        ])
