-- ===== src/Core/Errors.antt =====
-- packages/core/src/nextballup_core/constants.py and errors.py: the error codes and the audit actions
-- that the modelled handlers use, and the application error with its HTTP class.
use nextballup.Core.Text.{Text, codes}

-- The members of `ErrorCode`; `other` is any further text in the same place.
pub data ErrorCode : Type 0 where
  validation_failed forbidden internal_error unauthenticated rate_limited : ErrorCode
  team_not_found invite_not_found invite_expired invite_exhausted invite_inactive : ErrorCode
  invite_role_mismatch jersey_number_required jersey_number_taken already_member : ErrorCode
  privacy_consent_required privacy_consent_invalid video_not_found : ErrorCode
  not_found game_not_found invalid_content_type invalid_filename content_type_extension_mismatch :
      ErrorCode
  invalid_file_size file_too_small file_too_large : ErrorCode
  storage_not_configured storage_failure invalid_video_state : ErrorCode
  multipart_parts_required invalid_multipart_parts : ErrorCode
  processing_job_not_found processing_job_terminal processing_storage_failure : ErrorCode
  processing_checksum_mismatch processing_object_missing processing_size_mismatch : ErrorCode
  processing_transcode_failed processing_cancelled processing_stale_recovered : ErrorCode
  processing_stage_unknown processing_job_not_requeuable : ErrorCode
  cv_pipeline_disabled cv_stage_prerequisite_missing cv_model_artifact_required : ErrorCode
  billing_quota_exceeded mfa_required mfa_invalid_code : ErrorCode
  password_reset_token_invalid password_reset_token_expired password_reset_token_used : ErrorCode
  other : Text → ErrorCode

-- The text of a code, as far as a message or a JSON value shows it.
abbrev pub code_value : ErrorCode → Text
code_value ErrorCode.validation_failed = codes "VALIDATION_FAILED"
code_value ErrorCode.forbidden = codes "FORBIDDEN"
code_value ErrorCode.internal_error = codes "INTERNAL_ERROR"
code_value ErrorCode.unauthenticated = codes "UNAUTHENTICATED"
code_value ErrorCode.rate_limited = codes "RATE_LIMITED"
code_value ErrorCode.team_not_found = codes "TEAM_NOT_FOUND"
code_value ErrorCode.invite_not_found = codes "INVITE_NOT_FOUND"
code_value ErrorCode.invite_expired = codes "INVITE_EXPIRED"
code_value ErrorCode.invite_exhausted = codes "INVITE_EXHAUSTED"
code_value ErrorCode.invite_inactive = codes "INVITE_INACTIVE"
code_value ErrorCode.invite_role_mismatch = codes "INVITE_ROLE_MISMATCH"
code_value ErrorCode.jersey_number_required = codes "JERSEY_NUMBER_REQUIRED"
code_value ErrorCode.jersey_number_taken = codes "JERSEY_NUMBER_TAKEN"
code_value ErrorCode.already_member = codes "ALREADY_MEMBER"
code_value ErrorCode.privacy_consent_required = codes "PRIVACY_CONSENT_REQUIRED"
code_value ErrorCode.privacy_consent_invalid = codes "PRIVACY_CONSENT_INVALID"
code_value ErrorCode.video_not_found = codes "VIDEO_NOT_FOUND"
code_value ErrorCode.storage_not_configured = codes "STORAGE_NOT_CONFIGURED"
code_value ErrorCode.storage_failure = codes "STORAGE_FAILURE"
code_value ErrorCode.invalid_video_state = codes "INVALID_VIDEO_STATE"
code_value ErrorCode.multipart_parts_required = codes "MULTIPART_PARTS_REQUIRED"
code_value ErrorCode.invalid_multipart_parts = codes "INVALID_MULTIPART_PARTS"
code_value ErrorCode.processing_job_not_found = codes "PROCESSING_JOB_NOT_FOUND"
code_value ErrorCode.processing_job_terminal = codes "PROCESSING_JOB_TERMINAL"
code_value ErrorCode.processing_storage_failure = codes "PROCESSING_STORAGE_FAILURE"
code_value ErrorCode.processing_checksum_mismatch = codes "PROCESSING_CHECKSUM_MISMATCH"
code_value ErrorCode.processing_object_missing = codes "PROCESSING_OBJECT_MISSING"
code_value ErrorCode.processing_size_mismatch = codes "PROCESSING_SIZE_MISMATCH"
code_value ErrorCode.processing_transcode_failed = codes "PROCESSING_TRANSCODE_FAILED"
code_value ErrorCode.processing_cancelled = codes "PROCESSING_CANCELLED"
code_value ErrorCode.processing_stale_recovered = codes "PROCESSING_STALE_RECOVERED"
code_value ErrorCode.processing_stage_unknown = codes "PROCESSING_STAGE_UNKNOWN"
code_value ErrorCode.processing_job_not_requeuable = codes "PROCESSING_JOB_NOT_REQUEUABLE"
code_value ErrorCode.cv_pipeline_disabled = codes "CV_PIPELINE_DISABLED"
code_value ErrorCode.cv_stage_prerequisite_missing = codes "CV_STAGE_PREREQUISITE_MISSING"
code_value ErrorCode.cv_model_artifact_required = codes "CV_MODEL_ARTIFACT_REQUIRED"
code_value ErrorCode.mfa_required = codes "MFA_REQUIRED"
code_value ErrorCode.mfa_invalid_code = codes "MFA_INVALID_CODE"
code_value ErrorCode.password_reset_token_invalid = codes "PASSWORD_RESET_TOKEN_INVALID"
code_value ErrorCode.password_reset_token_expired = codes "PASSWORD_RESET_TOKEN_EXPIRED"
code_value ErrorCode.password_reset_token_used = codes "PASSWORD_RESET_TOKEN_USED"
code_value ErrorCode.billing_quota_exceeded = codes "BILLING_QUOTA_EXCEEDED"
code_value ErrorCode.not_found = codes "NOT_FOUND"
code_value ErrorCode.game_not_found = codes "GAME_NOT_FOUND"
code_value ErrorCode.invalid_content_type = codes "INVALID_CONTENT_TYPE"
code_value ErrorCode.invalid_filename = codes "INVALID_FILENAME"
code_value ErrorCode.content_type_extension_mismatch = codes "CONTENT_TYPE_EXTENSION_MISMATCH"
code_value ErrorCode.invalid_file_size = codes "INVALID_FILE_SIZE"
code_value ErrorCode.file_too_small = codes "FILE_TOO_SMALL"
code_value ErrorCode.file_too_large = codes "FILE_TOO_LARGE"
code_value (ErrorCode.other t) = t

-- The subclasses of AppError that the handlers raise, and RuntimeError.
pub data ErrorClass : Type 0 where
  app_error validation_failed_error authentication_error forbidden_error : ErrorClass
  not_found_error conflict_error service_unavailable_error storage_failure_error : ErrorClass
  too_many_requests_error invalid_credentials_error runtime_error : ErrorClass

pub record AppError : Type 0 where
  pub error_class : ErrorClass
  pub code : ErrorCode

-- The members of `AuditAction` that the modelled handlers write.
pub data AuditAction : Type 0 where
  video_event_reviewed video_event_manual_created : AuditAction
  billing_quota_denied video_upload_initiated : AuditAction
  team_created team_deleted team_invite_created team_privacy_consent_recorded : AuditAction
  team_join_succeeded team_join_failed : AuditAction
  video_upload_completed video_upload_failed video_upload_abandoned : AuditAction
  video_processing_queued video_processing_dispatched video_processing_started : AuditAction
  video_processing_completed video_processing_failed video_processing_cancelled : AuditAction
  video_processing_recovered_stale video_output_materialized : AuditAction
  video_processing_requeued video_deleted video_delete_failed : AuditAction
  user_login_failed user_mfa_recovery_used : AuditAction
  user_password_reset_succeeded user_password_reset_rejected : AuditAction
  user_password_reset_requested user_password_reset_sent : AuditAction
  user_refresh_failed user_refresh_succeeded user_logout : AuditAction
  video_raw_object_deleted video_raw_object_delete_failed : AuditAction
