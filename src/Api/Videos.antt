-- ===== src/Api/Videos.antt =====
-- apps/api/src/nextballup_api/routers/videos.py: the lookups and checks that its handlers share.
pub mod Stages
use Prim.Native.String.{String}
use mathlib.Core.Option
use nextballup.Prelude.{
  ℕ, ◌+◌, ◌*◌, Bool, true, false, ◌&&◌, Option, none, some, List, [], ◌∷◌, ◌==◌, ◌≡◌, refl,
  find_where, update_where, or_else,
}
use nextballup.Core.Text.{Text, text_eq}
use nextballup.Core.Enums.{ProcessingJobStage, VideoStatus, stage_eq, stage_value}
use nextballup.Core.Errors.{AppError, ErrorClass, ErrorCode, AuditAction}
use nextballup.Core.Json.{Fields}
use nextballup.Db.{Db, User, Video, ProcessingJob, AuditLog, write_audit}
use nextballup.Api.Result.{Result, ok, err, app_error, ◌>>=◌, ◌>>◌}
use nextballup.Api.Permissions.{require_verified_account}

abbrev pub storage_error : AppError
storage_error = app_error ErrorClass.storage_failure_error ErrorCode.storage_failure

abbrev pub invalid_state : AppError
invalid_state = app_error ErrorClass.conflict_error ErrorCode.invalid_video_state

-- ProcessingJobStage(payload.stage)
unfoldable pub parse_stage : Text → Option ProcessingJobStage
unfolding find_where text_eq
parse_stage t =
    find_where (λ s. text_eq (stage_value s) t)
      (ProcessingJobStage.transcode ∷ ProcessingJobStage.detection ∷ ProcessingJobStage.tracking
        ∷ ProcessingJobStage.court_mapping ∷ ProcessingJobStage.events ∷ ProcessingJobStage.metrics
        ∷ [])

-- `if x is None: raise`
abbrev pub or_raise {ℓ} : {A : Type ℓ} → Option A → ErrorClass → ErrorCode → Result A
or_raise none c e = err (app_error c e)
or_raise (some a) c e = ok a

-- What the lookup says of the row.
pub or_raise-eq-err :
    {A : Type 0} (o : Option A) (c : ErrorClass) (code : ErrorCode) {e : AppError}
    → or_raise o c code ≡ err e
    → o ≡ none
or_raise-eq-err none c code h = refl
or_raise-eq-err (some a) c code h = absurd (cc h)

pub or_raise-eq-ok :
    {A : Type 0} (o : Option A) (c : ErrorClass) (code : ErrorCode) {a : A}
    → or_raise o c code ≡ ok a
    → o ≡ some a
or_raise-eq-ok none c code h = absurd (cc h)
or_raise-eq-ok (some a) c code h = cc

-- The job of a stage of the video.
unfoldable pub job_of_stage : Video → ProcessingJobStage → Db → Result ProcessingJob
unfolding find_where
job_of_stage video stage db =
    or_raise (find_where (λ j. j.video_id == video.id && stage_eq j.stage stage) db.jobs)
      ErrorClass.not_found_error ErrorCode.processing_job_not_found

unfoldable pub requested_stage : Bool → User → Text → Result ProcessingJobStage
unfolding require_verified_account parse_stage
requested_stage verified_only user stage_text =
    require_verified_account verified_only user
    >> or_raise (parse_stage stage_text) ErrorClass.validation_failed_error
        ErrorCode.processing_stage_unknown

unfoldable pub video_or_404 : ℕ → Db → Result Video
unfolding find_where
video_or_404 video_id db =
    or_raise (find_where (λ v. v.id == video_id) db.videos) ErrorClass.not_found_error
      ErrorCode.video_not_found

-- A user's audit entry on a row.
abbrev pub user_audit : AuditAction → User → String → ℕ → ℕ → Fields → AuditLog
user_audit action user resource_type id team_id extra = record {
  action = action;
  actor_user_id = some user.id;
  resource_type = resource_type;
  resource_id = some id;
  team_id = some team_id;
  extra = extra;
}

-- The row that a handler holds locked is written back by its primary key.
unfoldable pub save_video : ℕ → (Video → Video) → Db → Db
unfolding update_where
save_video id f db = record db { videos = update_where (λ v. v.id == id) f db.videos }
