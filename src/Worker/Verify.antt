-- ===== src/Worker/Verify.antt =====
-- apps/worker/src/nextballup_worker/runtime/transcode.py: the second check of the
-- uploaded object, with `normalize_etag` of apps/api/src/nextballup_api/storage.py. What
-- `head_object` answers and what `base64` decodes are arguments.
use nextballup.Prelude.{
  ℕ, Bool, false, not, ◌&&◌, ◌||◌, Option, none, some, ◌==◌, leb, if◌then◌else◌, any_where, length,
  ◌⊎◌, inl, inr,
}
use nextballup.Core.Text.{Text, codes, text_eq, is_blank, strip, strip_by, lower, non_empty}
use nextballup.Core.Errors.{ErrorCode}
use nextballup.Core.Json.{Json, Fields, num_or_null, str_or_null}
use nextballup.Db.{Video}
use nextballup.Worker.Errors.{ProcessingFailure}

-- The response of `head_object`: the entries that the code reads, each None where it is missing or
-- of another type. `user_sha256` is Metadata["nbu-sha256"] or else Metadata["Nbu-Sha256"].
pub record ObjectHead : Type 0 where
  pub content_length : Option ℕ
  pub user_sha256 : Option Text
  pub checksum_sha256 : Option Text
  pub etag : Option Text

-- StorageFailureError with its diagnostics, None, or the response.
pub data HeadResult : Type 0 where
  head_failed : Fields → HeadResult
  head_missing : HeadResult
  head_found : ObjectHead → HeadResult

-- The part from `raw_checksum` on; `decode` is base64.b64decode(...).hex(), None where it raises.
abbrev decoded : (Text → Option Text) → Option Text → Option Text
decoded decode none = none
decoded decode (some t) = decode t

unfoldable pub metadata_checksum_sha256 : (Text → Option Text) → ObjectHead → Option Text
metadata_checksum_sha256 decode head = elim head.user_sha256 [
  | none ↦ decoded decode head.checksum_sha256
  | some value ↦
      if length value == 64 then some (lower value) else decoded decode head.checksum_sha256
]

unfoldable pub normalize_etag : Option Text → Option Text
normalize_etag none = none
normalize_etag (some etag) = non_empty (strip_by (λ c. c == 34) (strip etag))

-- Both sides are known and differ.
unfoldable pub sizes_differ : Option ℕ → Option ℕ → Bool
sizes_differ none b = false
sizes_differ (some a) none = false
sizes_differ (some a) (some b) = not (a == b)

-- `video.checksum_sha256 and actual_checksum and actual_checksum != video.checksum_sha256`
unfoldable pub checksums_differ : Option Text → Option Text → Bool
checksums_differ none actual = false
checksums_differ (some recorded) none = false
checksums_differ (some recorded) (some actual) =
    not (is_blank (some recorded))
    && (not (is_blank (some actual)) && not (text_eq actual recorded))

is_hex_digit : ℕ → Bool
is_hex_digit c = (leb 48 c && leb c 57) || ((leb 97 c && leb c 102) || (leb 65 c && leb c 70))

is_md5_etag : Option Text → Bool
unfolding any_where is_hex_digit
is_md5_etag none = false
is_md5_etag (some t) =
    not (any_where (λ c. c == 45) t)
    && (length t == 32 && not (any_where (λ c. not (is_hex_digit c)) t))

verification_report : Text → ObjectHead → Video → Fields
unfolding is_md5_etag normalize_etag
verification_report key head video = Fields.field "storage_key" (Json.str key) (
    Fields.field "content_length" (num_or_null head.content_length) (
      Fields.field "storage_etag" (str_or_null (normalize_etag head.etag)) (
        Fields.field "etag_is_md5" (Json.flag (is_md5_etag (normalize_etag head.etag))) (
          Fields.field "client_checksum_present" (Json.flag (not (is_blank video.checksum_sha256)))
            Fields.end))))

-- `{"storage_failure": storage_failure} if storage_failure else None`; None becomes {}.
failure_report : Fields → Fields
failure_report Fields.end = Fields.end
failure_report (Fields.field k v d) =
    Fields.field "storage_failure" (Json.obj (Fields.field k v d)) Fields.end

-- The checks on the response for the key, which is not empty.
verify_head : (Text → Option Text) → Video → Text → HeadResult → ProcessingFailure ⊎ Fields
unfolding failure_report sizes_differ checksums_differ metadata_checksum_sha256 verification_report
verify_head decode video key (HeadResult.head_failed details) = inl (
    ProcessingFailure.transient ErrorCode.processing_storage_failure
      (codes "Storage head_object failed") (failure_report details))
verify_head decode video key HeadResult.head_missing = inl (
    ProcessingFailure.permanent ErrorCode.processing_object_missing
      (codes "Uploaded object was not found in storage"))
verify_head decode video key (HeadResult.head_found head) =
    if sizes_differ head.content_length video.file_size_bytes
    then inl (
        ProcessingFailure.permanent ErrorCode.processing_size_mismatch
          (codes "Uploaded object size does not match the declared file size"))
    else if checksums_differ video.checksum_sha256 (metadata_checksum_sha256 decode head)
    then inl (
        ProcessingFailure.permanent ErrorCode.processing_checksum_mismatch
          (codes "Uploaded object checksum does not match the recorded SHA-256 digest"))
    else inr (verification_report key head video)

missing_key : ProcessingFailure
missing_key =
    ProcessingFailure.permanent ErrorCode.processing_object_missing
      (codes "Video has no storage key")

unfoldable pub verify_storage :
    (Text → HeadResult) → (Text → Option Text) → Video → ProcessingFailure ⊎ Fields
unfolding verify_head missing_key
verify_storage head_object decode video = elim video.storage_key_raw [
  | none ↦ inl missing_key
  | some key ↦
      if is_blank (some key)
      then inl missing_key
      else verify_head decode video key (head_object key)
]
