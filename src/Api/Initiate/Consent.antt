-- ===== src/Api/Initiate/Consent.antt =====
-- videos.py: which consents an upload needs, `_resolve_upload_privacy_consent` and
-- `_require_uploader_youth_consent`. Whether sensitive uploads need a consent at all
-- (`should_require_sensitive_upload_consent`) is an argument.
use nextballup.Prelude.{
  ℕ, Bool, true, false, not, ◌&&◌, ◌||◌, Option, none, some, ◌==◌, ltb, leb, is_none, find_where,
}
use nextballup.Core.Enums.{UserRole, TeamLevel, InstitutionType}
use nextballup.Core.Errors.{ErrorClass, ErrorCode}
use nextballup.Db.{Db, User, Team, TeamPrivacyConsent}
use nextballup.Api.Result.{Result, ok, err, app_error, raise_if, ◌>>◌}

-- `_SENSITIVE_TEAM_LEVELS`
abbrev pub is_sensitive_level : TeamLevel → Bool
is_sensitive_level TeamLevel.youth = true
is_sensitive_level TeamLevel.aau_club = true
is_sensitive_level TeamLevel.middle_school = true
is_sensitive_level TeamLevel.high_school = true
is_sensitive_level _ = false

abbrev pub is_k12_school : InstitutionType → Bool
is_k12_school InstitutionType.k12_school = true
is_k12_school _ = false

unfoldable pub team_requires_privacy_consent : Bool → Team → Bool
team_requires_privacy_consent required team =
    required && (is_sensitive_level team.level || is_k12_school team.institution_type)

-- `user.role in {ADMIN, COACH}`
abbrev pub is_adult_role : UserRole → Bool
is_adult_role UserRole.admin = true
is_adult_role UserRole.coach = true
is_adult_role _ = false

unfoldable pub require_uploader_youth_consent : Bool → Team → User → Result (Unit {0})
unfolding team_requires_privacy_consent
require_uploader_youth_consent required team user =
    raise_if
      (team_requires_privacy_consent required team
        && not (is_adult_role user.role)
        && not (user.date_of_birth_verified && user.parental_consent_on_file))
      ErrorClass.forbidden_error ErrorCode.privacy_consent_required

-- `value is None or value > now`
abbrev pub ends_after : ℕ → Option ℕ → Bool
ends_after now none = true
ends_after now (some t) = ltb now t

unfoldable pub consent_is_current : TeamPrivacyConsent → ℕ → Bool
consent_is_current consent now =
    is_none consent.revoked_at && leb consent.effective_at now && ends_after now consent.expires_at

invalid_if : Bool → Result (Unit {0})
invalid_if failed = raise_if failed ErrorClass.forbidden_error ErrorCode.privacy_consent_invalid

unfoldable pub check_consent :
    Bool → ℕ → Option TeamPrivacyConsent → Result (Option TeamPrivacyConsent)
unfolding invalid_if consent_is_current
check_consent required now none =
    err (app_error ErrorClass.forbidden_error ErrorCode.privacy_consent_invalid)
check_consent required now (some consent) =
    invalid_if (not (consent_is_current consent now))
    >> (invalid_if (
          not (
            consent.covers_video_uploads && consent.covers_cv_processing
            && consent.athlete_pii_authorized))
        >> (invalid_if (required && not consent.minors_authorized) >> ok (some consent)))

unfoldable pub resolve_upload_privacy_consent :
    Bool → Team → Option ℕ → Db → Result (Option TeamPrivacyConsent)
unfolding team_requires_privacy_consent check_consent find_where
resolve_upload_privacy_consent sensitive team none db =
    raise_if (team_requires_privacy_consent sensitive team) ErrorClass.forbidden_error
      ErrorCode.privacy_consent_required
    >> ok none
resolve_upload_privacy_consent sensitive team (some consent_id) db =
    check_consent (team_requires_privacy_consent sensitive team) db.now
      (find_where (λ c. c.id == consent_id && c.team_id == team.id) db.consents)
