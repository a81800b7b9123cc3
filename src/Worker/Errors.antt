-- ===== src/Worker/Errors.antt =====
-- apps/worker/src/nextballup_worker/errors.py: what the work of a stage may raise, by the way that it
-- is handled. An exception with no `code` of its own is `unexpected none`.
use nextballup.Prelude.{Bool, true, false, Option, none, some}
use nextballup.Core.Text.{Text}
use nextballup.Core.Errors.{ErrorCode}
use nextballup.Core.Json.{Fields}

pub data ProcessingFailure : Type 0 where
  permanent : ErrorCode → Text → ProcessingFailure
  transient : ErrorCode → Text → Fields → ProcessingFailure
  unexpected : Option ErrorCode → Text → Option Fields → ProcessingFailure

-- `isinstance(exc, TransientProcessingError)`, and True where the exception is unexpected.
abbrev pub is_retryable : ProcessingFailure → Bool
is_retryable (ProcessingFailure.permanent _ _) = false
is_retryable (ProcessingFailure.transient _ _ _) = true
is_retryable (ProcessingFailure.unexpected _ _ _) = true

-- `getattr(exc, "code", None) or ErrorCode.INTERNAL_ERROR`
abbrev pub failure_code : ProcessingFailure → ErrorCode
failure_code (ProcessingFailure.permanent c _) = c
failure_code (ProcessingFailure.transient c _ _) = c
failure_code (ProcessingFailure.unexpected none _ _) = ErrorCode.internal_error
failure_code (ProcessingFailure.unexpected (some c) _ _) = c

abbrev pub failure_text : ProcessingFailure → Text
failure_text (ProcessingFailure.permanent _ m) = m
failure_text (ProcessingFailure.transient _ m _) = m
failure_text (ProcessingFailure.unexpected _ m _) = m

abbrev pub failure_details : ProcessingFailure → Option Fields
failure_details (ProcessingFailure.permanent _ _) = some Fields.end
failure_details (ProcessingFailure.transient _ _ d) = some d
failure_details (ProcessingFailure.unexpected _ _ d) = d
