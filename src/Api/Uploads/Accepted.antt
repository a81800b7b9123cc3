-- ===== src/Api/Uploads/Accepted.antt =====
-- videos.py, `complete_upload`: the state that an accepted completion leaves.
use nextballup.Prelude.{
  ℕ, ◌≡◌, refl, ap, sym, Bool, ◌&&◌, Option, ◌==◌, ==_refl, inl, inr, find_where,
  find_where-update_where, find_where_self, find_where-append_none,
}
use nextballup.Core.Text.{Text}
use nextballup.Core.Enums.{ProcessingJobStage, VideoStatus, stage_eq}
use nextballup.Core.Errors.{AppError}
use nextballup.Db.{Db, User, Video, write_audit}
use nextballup.Worker.CvStages.{WorkerSettings, pending_job, add_job}
use nextballup.Api.Result.{ok, err, bind_ok, Result-cases, ◌>>=◌, ◌>>◌}
use nextballup.Api.Permissions.{
  require_verified_account, require_team_coach, require_team_member, get_team_membership,
}
use nextballup.Api.Billing.{resolve_team_plan}
use nextballup.Api.Videos.{video_or_404, job_of_stage, save_video, or_raise-eq-err, or_raise-eq-ok}
use nextballup.Api.Uploads.{
  UploadReply, queued_values, raw_retention_expires_at, plan_days, completion_audits, accept_upload,
  video_of_coach,
}

-- The state that an accepted upload leaves.
pub accepted_state : WorkerSettings → User → Video → Option Text → ℕ → Db → Db
accepted_state settings user video expected new_id db =
    let job = pending_job new_id video.id video.team_id ProcessingJobStage.transcode db.now in
    completion_audits user video job expected (
      add_job job (
        save_video video.id
          (queued_values expected (
            raw_retention_expires_at settings (plan_days (resolve_team_plan video.team_id db))
              db.now))
          db))

pub job_of_stage-accepted :
    (settings : WorkerSettings) (user : User) (video : Video) (expected : Option Text) (new_id : ℕ)
    (db : Db) {e : AppError}
    → job_of_stage video ProcessingJobStage.transcode db ≡ err e
    → job_of_stage video ProcessingJobStage.transcode
        (accepted_state settings user video expected new_id db)
      ≡ ok (pending_job new_id video.id video.team_id ProcessingJobStage.transcode db.now)
unfolding job_of_stage accepted_state completion_audits add_job save_video write_audit find_where
    pending_job
job_of_stage-accepted settings user video expected new_id db e =
    rw
      (
        find_where-append_none
            (λ j. j.video_id == video.id && stage_eq j.stage ProcessingJobStage.transcode) db.jobs _
            (or_raise-eq-err _ _ _ e),
        ==_refl video.id,
      )
      refl

require_team_coach-memberships :
    (user : User) (team_id : ℕ) (db db' : Db)
    → db'.memberships ≡ db.memberships
    → require_team_coach user team_id db' ≡ require_team_coach user team_id db
unfolding require_team_coach require_team_member get_team_membership
require_team_coach-memberships user team_id db db' same = rw same refl

-- The video's row after the completion.
unfoldable pub queued_video : WorkerSettings → Video → Option Text → Db → Video
unfolding queued_values raw_retention_expires_at
queued_video settings video expected db =
    queued_values expected
      (raw_retention_expires_at settings (plan_days (resolve_team_plan video.team_id db)) db.now)
      video

video_or_404-accepted :
    (settings : WorkerSettings) (user : User) (vid : ℕ) (video : Video) (expected : Option Text)
    (new_id : ℕ) (db : Db)
    → video_or_404 vid db ≡ ok video
    → video_or_404 vid (accepted_state settings user video expected new_id db)
      ≡ ok (queued_video settings video expected db)
unfolding video_or_404 accepted_state completion_audits add_job save_video write_audit queued_video
    queued_values
video_or_404-accepted settings user vid video expected new_id db e =
    let found = or_raise-eq-ok _ _ _ e in
    let key = find_where_self (λ v. v.id == vid) db.videos found in
    rw
      (
        find_where-update_where (λ v. v.id == vid) (λ v. v.id == video.id)
            (queued_values expected (
              raw_retention_expires_at settings (plan_days (resolve_team_plan video.team_id db))
                db.now))
            (λ v. refl) db.videos,
        found,
      )
      (rw (==_refl video.id) refl)

module _ (vo : Bool) (settings : WorkerSettings) (user : User) (vid : ℕ) (video : Video)
    (expected : Option Text) (new_id : ℕ) (db : Db) where
  require_team_coach-accepted :
      (team_id : ℕ)
      → require_team_coach user team_id (accepted_state settings user video expected new_id db)
        ≡ require_team_coach user team_id db
  unfolding accepted_state completion_audits add_job save_video write_audit
  require_team_coach-accepted team_id = require_team_coach-memberships user team_id db _ refl

  pub video_of_coach-accepted :
      video_of_coach vo user vid db ≡ ok video
      → video_of_coach vo user vid (accepted_state settings user video expected new_id db)
        ≡ ok (queued_video settings video expected db)
  unfolding video_of_coach queued_video queued_values
  video_of_coach-accepted e =
      let b1 =
        bind_ok (require_verified_account vo user >> video_or_404 vid db)
          (λ v. require_team_coach user v.team_id db >>= λ _. ok v) e in
      let b2 = bind_ok (require_verified_account vo user) (λ _. video_or_404 vid db) b1.1.0 in
      let b3 = bind_ok (require_team_coach user b1.0.team_id db) (λ _. ok b1.0) b1.1.1 in
      let same : b1.0 ≡ video = cc (b3.1.1) in
      let found : video_or_404 vid db ≡ ok video = rw (← same) b2.1.1 in
      let coach : require_team_coach user video.team_id db ≡ ok b3.0 = rw (← same) b3.1.0 in
      rw (b2.1.0, video_or_404-accepted settings user vid video expected new_id db found)
        (rw (require_team_coach-accepted video.team_id, coach) refl)

-- What an accepted upload returns and leaves.
pub accept_upload_lem :
    (settings : WorkerSettings) (user : User) (video : Video) (expected : Option Text) (new_id : ℕ)
    (db : Db) {r : UploadReply} {after : Db}
    → accept_upload settings user video expected new_id db ≡ (ok r, after)
    → (e : AppError) × ((job_of_stage video ProcessingJobStage.transcode db ≡ err e)
        × ((r ≡ record { video_id = video.id; status = VideoStatus.queued; job_id = new_id })
            × (after ≡ accepted_state settings user video expected new_id db)))
unfolding accept_upload accepted_state
accept_upload_lem settings user video expected new_id db h =
    elim (Result-cases (job_of_stage video ProcessingJobStage.transcode db)) [
      | inl (j, f) ↦ absurd (cc (rw (f, accept_upload) at h))
      | inr (x, f) ↦
          let g = rw (f, accept_upload) at h in
          (x, (f, (cc (ap (λ p. p.0) g), sym (ap (λ p. p.1) g))))
    ]
