-- ===== src/Api/Initiate/Within.antt =====
-- videos.py, `initiate_upload`: that an accepted upload keeps the team's account within its plan.
use nextballup.Prelude.{
  ℕ, ◌+◌, ◌≡◌, refl, sym, ap, ◌∙◌, subst, true, Option, some, ◌∷◌, arith, inl, inr, Bool-cases,
  Option-cases,
}
use nextballup.Core.Enums.{VideoStatus}
use nextballup.Db.{Db, User, Video, AuditLog, BillingAccount, write_audit}
use nextballup.Api.Result.{ok, Result-cases}
use nextballup.Api.Billing.{
  QuotaCheck, TeamPlanContext, get_or_create_account_for_team, check_video_upload_quota,
  check_video_storage_quota, upload_quota_of, storage_quota_of, resolve_team_plan, record_usage,
  within_limit,
}
use nextballup.Api.Billing.Quota.{UniqueTeams}
use nextballup.Api.Billing.Reserve.{
  reserved, allowed-metered, upload_quota-reserved, storage_quota-reserved,
}
use nextballup.Api.Billing.Accounts.{get_or_create-Charged, get_or_create_again, linked-resolved}
use nextballup.Api.Initiate.{
  CreateUploadRequest, after_admission, after_upload_check, after_storage_check, start_upload,
  insert_upload, new_video, presign_video, initiated_audit, meter_upload, initiate_upload,
}
use nextballup.Api.Initiate.Admit.{
  CreateUploadResponse, UploadSettings, UploadAnswers, Admission, admit_upload, deny_quota,
}
use nextballup.Api.Storage.{PresignedUpload}

-- What an accepted upload went by, and the state it leaves.
pub record Accepted (settings : UploadSettings) (user : User) (payload : CreateUploadRequest)
    (outside : UploadAnswers) (db after : Db) : Type 0 where
  pub admission : Admission
  pub account : BillingAccount
  pub metered : Db
  pub presigned : PresignedUpload
  pub admitted : admit_upload settings outside.limiter user payload db ≡ ok admission
  pub billed :
      get_or_create_account_for_team admission.game.team_id
        (some user.id)
        settings.billing_default_plan_code
        outside.account_id
        db
      ≡ ok (account, metered)
  pub upload_allowed : (upload_quota_of account.id metered).allowed ≡ true
  pub storage_allowed : (storage_quota_of account.id payload.file_size_bytes metered).allowed ≡ true
  pub saved :
      insert_upload user payload admission outside presigned
        (upload_quota_of account.id metered)
        (storage_quota_of account.id payload.file_size_bytes metered)
        (metered.now + settings.upload_url_expires_seconds)
        metered
      ≡ after

module _ (settings : UploadSettings) (user : User) (payload : CreateUploadRequest)
    (outside : UploadAnswers) (db : Db) where
  start_upload-saved :
      (admission : Admission) (quota storage_quota : QuotaCheck) (metered : Db)
      {reply : CreateUploadResponse} {after : Db}
      → start_upload settings user payload admission outside quota storage_quota metered db
        ≡ (ok reply, after)
      → (presigned : PresignedUpload) × (insert_upload user payload admission outside presigned
            quota storage_quota
            (metered.now + settings.upload_url_expires_seconds)
            metered
          ≡ after)
  unfolding start_upload
  start_upload-saved admission quota storage_quota metered {reply} {after} e =
      elim (Option-cases outside.storage) [
        | inl n ↦ absurd (cc (ap (λ p. p.0) (rw (n, start_upload) at e)))
        | inr (client, c) ↦
            elim (Option-cases (presign_video settings payload admission outside client)) [
              | inl n ↦ absurd (cc (ap (λ p. p.0) (rw (c, n, start_upload) at e)))
              | inr (presigned, p) ↦ (presigned, ap (λ p. p.1) (rw (c, p, start_upload) at e))
            ]
      ]

  after_upload_check-Accepted :
      (admission : Admission) (account : BillingAccount) (metered : Db)
      {reply : CreateUploadResponse} {after : Db}
      → admit_upload settings outside.limiter user payload db ≡ ok admission
      → get_or_create_account_for_team admission.game.team_id
          (some user.id)
          settings.billing_default_plan_code
          outside.account_id
          db
        ≡ ok (account, metered)
      → after_upload_check settings user payload admission outside db
          (ok (upload_quota_of account.id metered, metered))
        ≡ (ok reply, after)
      → Accepted settings user payload outside db after
  unfolding after_upload_check after_storage_check check_video_storage_quota deny_quota
  after_upload_check-Accepted admission account metered {reply} {after} a b e =
      let again =
        get_or_create_again admission.game.team_id (some user.id) settings.billing_default_plan_code
          outside.account_id db b in
      elim (Bool-cases (upload_quota_of account.id metered).allowed) [
        | inr n ↦ absurd (cc (ap (λ p. p.0) (rw (n, after_upload_check) at e)))
        | inl t ↦
            elim (Bool-cases
              (storage_quota_of account.id payload.file_size_bytes metered).allowed) [
                | inr m ↦ absurd (
                    cc (
                      ap (λ p. p.0)
                        (rw (t, again, m, after_upload_check, after_storage_check) at e)))
                | inl u ↦
                    let (presigned, saved) =
                      start_upload-saved admission (upload_quota_of account.id metered)
                        (storage_quota_of account.id payload.file_size_bytes metered) metered
                        (rw (t, again, u, after_upload_check, after_storage_check) at e) in
                    record {
                      admission = admission;
                      account = account;
                      metered = metered;
                      presigned = presigned;
                      admitted = a;
                      billed = b;
                      upload_allowed = t;
                      storage_allowed = u;
                      saved = saved;
                    }
              ]
      ]

  pub initiate_upload-Accepted :
      {reply : CreateUploadResponse} {after : Db}
      → initiate_upload settings user payload outside db ≡ (ok reply, after)
      → Accepted settings user payload outside db after
  unfolding initiate_upload after_admission check_video_upload_quota
  initiate_upload-Accepted {reply} {after} e =
      elim (Result-cases (admit_upload settings outside.limiter user payload db)) [
        | inr (x, n) ↦ absurd (cc (ap (λ p. p.0) (rw (n, after_admission) at e)))
        | inl (admission, a) ↦
            elim (Result-cases (
              get_or_create_account_for_team admission.game.team_id (some user.id)
                settings.billing_default_plan_code outside.account_id db)) [
                  | inr (x, n) ↦
                      absurd
                        (cc (ap (λ p. p.0) (rw (a, after_admission, n, after_upload_check) at e)))
                  | inl ((account, metered), b) ↦
                      after_upload_check-Accepted admission account metered a b
                        (rw (a, after_admission, b) at e)
                ]
      ]

  insert_upload-reserved :
      (admission : Admission) (presigned : PresignedUpload) (quota storage_quota : QuotaCheck)
      (expires_at : ℕ) (metered : Db) {ctx : TeamPlanContext}
      → resolve_team_plan admission.game.team_id metered ≡ some ctx
      → insert_upload user payload admission outside presigned quota storage_quota expires_at
          metered
        ≡ reserved ctx.account_id
            (some admission.game.team_id)
            (some outside.video_id)
            payload.file_size_bytes
            (new_video user payload admission outside presigned expires_at)
            (initiated_audit user payload admission outside presigned quota storage_quota)
            metered
  unfolding insert_upload meter_upload write_audit resolve_team_plan record_usage
  insert_upload-reserved admission presigned quota storage_quota expires_at metered {ctx} resolved =
      rw (resolved, meter_upload) refl

resolve-reserved :
    (team_id account_id : ℕ) (team video : Option ℕ) (size : ℕ) (v : Video) (audit : AuditLog)
    (db : Db)
    → resolve_team_plan team_id (reserved account_id team video size v audit db)
      ≡ resolve_team_plan team_id db
unfolding resolve_team_plan record_usage
resolve-reserved team_id account_id team video size v audit db = refl

reserved-videos :
    (account_id : ℕ) (team video : Option ℕ) (size : ℕ) (v : Video) (audit : AuditLog) (db : Db)
    → (reserved account_id team video size v audit db).videos ≡ (v ∷ db.videos)
unfolding record_usage
reserved-videos account_id team video size v audit db = refl

-- An upload that is accepted adds one video, which awaits its upload, and stays within the plan of its
-- team: in the state after it, the team has a plan, the uploads of its account's period are at most the
-- plan's limit, if there is one, and so is the storage that its videos reserve, given that before it each
-- team had at most one billing link.
pub initiate_upload_within :
    (settings : UploadSettings) (user : User) (payload : CreateUploadRequest)
    (outside : UploadAnswers) (db : Db) {reply : CreateUploadResponse} {after : Db}
    → UniqueTeams db.links
    → initiate_upload settings user payload outside db ≡ (ok reply, after)
    → (v : Video) × (ctx : TeamPlanContext) × (after.videos ≡ (v ∷ db.videos))
      × (v.status ≡ VideoStatus.pending_upload)
      × (resolve_team_plan v.team_id after ≡ some ctx)
      × (within_limit
            (upload_quota_of ctx.account_id after).used
            (upload_quota_of ctx.account_id after).limit
          ≡ true)
      × ((storage_quota_of ctx.account_id 0 after).allowed ≡ true)
unfolding new_video
initiate_upload_within settings user payload outside db {reply} {after} unique e =
    let a = initiate_upload-Accepted settings user payload outside db e in
    let team_id = a.admission.game.team_id in
    let quota = upload_quota_of a.account.id a.metered in
    let storage_quota = storage_quota_of a.account.id payload.file_size_bytes a.metered in
    let expires_at = a.metered.now + settings.upload_url_expires_seconds in
    let video = new_video user payload a.admission outside a.presigned expires_at in
    let audit = initiated_audit user payload a.admission outside a.presigned quota storage_quota in
    let charged =
      get_or_create-Charged team_id (some user.id) settings.billing_default_plan_code
        outside.account_id db a.billed in
    let metered = allowed-metered a.account.id a.metered a.upload_allowed in
    let plan = linked-resolved team_id a.metered charged.linked metered.1 in
    let ctx = plan.0 in
    let left =
      sym (
        insert_upload-reserved settings user payload outside db a.admission a.presigned quota
          storage_quota expires_at a.metered plan.1)
      ∙ a.saved in
    let upload_ok =
      subst (λ k. (upload_quota_of k a.metered).allowed ≡ true) (sym plan.2) a.upload_allowed in
    let storage_ok =
      subst (λ k. (storage_quota_of k payload.file_size_bytes a.metered).allowed ≡ true)
        (sym plan.2) a.storage_allowed in
    (
      video,
      ctx,
      subst (λ d. d.videos ≡ (video ∷ db.videos)) left
          (reserved-videos ctx.account_id (some team_id) (some outside.video_id)
              payload.file_size_bytes video audit a.metered
            ∙ ap (λ vs. video ∷ vs) charged.videos),
      refl,
      subst (λ d. resolve_team_plan team_id d ≡ some ctx) left
          (resolve-reserved team_id ctx.account_id (some team_id) (some outside.video_id)
              payload.file_size_bytes video audit a.metered
            ∙ plan.1),
      subst
          (λ d.
            within_limit (upload_quota_of ctx.account_id d).used
              (upload_quota_of ctx.account_id d).limit
            ≡ true)
          left
          (upload_quota-reserved ctx.account_id (some team_id) (some outside.video_id)
            payload.file_size_bytes video audit a.metered upload_ok),
      subst (λ d. (storage_quota_of ctx.account_id 0 d).allowed ≡ true) left
          (storage_quota-reserved ctx.account_id (some team_id) (some outside.video_id)
            payload.file_size_bytes video audit a.metered (charged.unique unique) (omega arith)
            storage_ok),
    )
