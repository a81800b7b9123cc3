-- ===== src/Api/Teams/Consents.antt =====
-- teams.py, `record_privacy_consent`.
use nextballup.Prelude.{ℕ, Bool, Option, none, some, ◌∷◌}
use nextballup.Core.Errors.{AuditAction}
use nextballup.Core.Json.{Json, Fields}
use nextballup.Db.{Db, User, TeamPrivacyConsent, write_audit}
use nextballup.Api.Result.{Result, ok, ◌>>=◌, ◌>>◌}
use nextballup.Api.Permissions.{require_verified_account, require_team_coach}
use nextballup.Api.Videos.{user_audit}
use nextballup.Api.Teams.{get_team_or_404}

-- The columns of a consent that the model has; the two evidence columns are whether they are there.
pub record TeamPrivacyConsentCreate : Type 0 where
  pub covers_video_uploads : Bool
  pub covers_cv_processing : Bool
  pub commercial_ml_training_allowed : Bool
  pub minors_authorized : Bool
  pub athlete_pii_authorized : Bool
  pub has_evidence_uri : Bool
  pub has_evidence_sha256 : Bool
  pub expires_at : Option ℕ

new_consent : TeamPrivacyConsentCreate → ℕ → ℕ → ℕ → ℕ → TeamPrivacyConsent
new_consent payload id team_id user_id now = record {
  id = id;
  team_id = team_id;
  recorded_by = some user_id;
  covers_video_uploads = payload.covers_video_uploads;
  covers_cv_processing = payload.covers_cv_processing;
  commercial_ml_training_allowed = payload.commercial_ml_training_allowed;
  minors_authorized = payload.minors_authorized;
  athlete_pii_authorized = payload.athlete_pii_authorized;
  effective_at = now;
  expires_at = payload.expires_at;
  revoked_at = none;
}

add_consent : User → TeamPrivacyConsentCreate → ℕ → ℕ → Db → Db
unfolding new_consent write_audit
add_consent user payload team_id id db =
    write_audit
      (user_audit AuditAction.team_privacy_consent_recorded user "team_privacy_consent" id team_id (
        Fields.field "covers_video_uploads" (Json.flag payload.covers_video_uploads) (
          Fields.field "covers_cv_processing" (Json.flag payload.covers_cv_processing) (
            Fields.field "commercial_ml_training_allowed"
              (Json.flag payload.commercial_ml_training_allowed)
              (Fields.field "minors_authorized" (Json.flag payload.minors_authorized) (
                Fields.field "has_evidence_uri" (Json.flag payload.has_evidence_uri) (
                  Fields.field "has_evidence_sha256" (Json.flag payload.has_evidence_sha256)
                    Fields.end)))))))
      (record db { consents = new_consent payload id team_id user.id db.now ∷ db.consents })

unfoldable pub record_privacy_consent :
    Bool → User → ℕ → TeamPrivacyConsentCreate → ℕ → Db → Result (ℕ × Db)
unfolding require_verified_account get_team_or_404 require_team_coach add_consent
record_privacy_consent verified_only user team_id payload id db =
    require_verified_account verified_only user >> get_team_or_404 team_id db >>= λ team.
    require_team_coach user team.id db >>= λ _. ok (id, add_consent user payload team.id id db)
