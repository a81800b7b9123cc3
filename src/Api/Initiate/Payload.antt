-- ===== src/Api/Initiate/Payload.antt =====
-- videos.py: `_validate_upload`, the checks on the request of an upload, in their order. The content type
-- has been normalised by the schema.
use nextballup.Prelude.{
  ℕ, Bool, false, not, ◌&&◌, ◌||◌, Option, none, some, List, [], ◌∷◌, ◌==◌, ltb, leb, if◌then◌else◌,
  any_where, find_where,
}
use nextballup.Core.Text.{Text, text_eq, is_empty, has_dots, strip, lower}
use nextballup.Core.Errors.{ErrorClass, ErrorCode}
use nextballup.Api.Result.{Result, raise_if, ◌>>◌}

pub record CreateUploadRequest : Type 0 where
  pub game_id : ℕ
  pub filename : Text
  pub file_size_bytes : ℕ
  pub content_type : Text
  pub checksum_sha256 : Option Text
  pub privacy_consent_id : Option ℕ

-- The settings of the check; `upload_content_type_extensions` is a dictionary.
pub record UploadLimits : Type 0 where
  pub allowed_video_content_types : List Text
  pub upload_content_type_extensions : List (Text × List Text)
  pub min_upload_size_bytes : ℕ
  pub max_upload_size_bytes : ℕ

-- `value in values`
unfoldable pub text_in : Text → List Text → Bool
unfolding any_where text_eq
text_in t ts = any_where (λ u. text_eq u t) ts

-- `ord(c) < 0x20 or ord(c) == 0x7F`, or a path separator.
abbrev pub is_unsafe_char : ℕ → Bool
is_unsafe_char c = ltb c 0x20 || c == 0x7F || c == b'/' || c == b'\\'

unfoldable pub filename_is_safe : Text → Bool
unfolding strip text_eq any_where
filename_is_safe filename =
    not (is_empty filename)
    && text_eq (strip filename) filename
    && not (any_where is_unsafe_char filename)
    && not (has_dots filename)

-- The text from its last dot on.
unfoldable pub extension_of : Text → Option Text
extension_of [] = none
extension_of (c ∷ s) = elim (extension_of s) [
  | some e ↦ some e
  | none ↦ if c == b'.' then some (c ∷ s) else none
]

abbrev extensions_for : Text → UploadLimits → List Text
extensions_for content_type limits =
    elim (find_where (λ e. text_eq e.0 content_type) limits.upload_content_type_extensions) [
      | none ↦ []
      | some (_, extensions) ↦ extensions
    ]

unfoldable pub filename_extension_allowed : Text → Text → UploadLimits → Bool
unfolding extension_of lower text_in find_where text_eq
filename_extension_allowed filename content_type limits = elim (extension_of (lower filename)) [
  | none ↦ false
  | some extension ↦ text_in extension (extensions_for content_type limits)
]

-- `{ct.lower() for ct in settings.allowed_video_content_types}`
abbrev lowered : List Text → List Text
lowered [] = []
lowered (t ∷ ts) = lower t ∷ lowered ts

unfoldable pub validate_upload : CreateUploadRequest → UploadLimits → Result (Unit {0})
unfolding text_in filename_is_safe filename_extension_allowed
validate_upload payload limits =
    raise_if (not (text_in payload.content_type (lowered limits.allowed_video_content_types)))
      ErrorClass.validation_failed_error ErrorCode.invalid_content_type
    >> (raise_if (not (filename_is_safe payload.filename)) ErrorClass.validation_failed_error
          ErrorCode.invalid_filename
        >> (raise_if (not (filename_extension_allowed payload.filename payload.content_type limits))
              ErrorClass.validation_failed_error ErrorCode.content_type_extension_mismatch
            >> (raise_if (leb payload.file_size_bytes 0) ErrorClass.validation_failed_error
                  ErrorCode.invalid_file_size
                >> (raise_if (ltb payload.file_size_bytes limits.min_upload_size_bytes)
                      ErrorClass.validation_failed_error ErrorCode.file_too_small
                    >> raise_if (ltb limits.max_upload_size_bytes payload.file_size_bytes)
                        ErrorClass.validation_failed_error ErrorCode.file_too_large))))
