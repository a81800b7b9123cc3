-- ===== src/Api/Uploads/Check.antt =====
-- videos.py: the checks of `complete_upload` on the parts and on the uploaded object, with
-- `_verify_uploaded_object`.
use Prim.Native.String.{String}
use nextballup.Prelude.{
  ℕ, Bool, true, false, not, Option, none, some, List, [], ◌∷◌, ◌==◌, if◌then◌else◌, any_where,
}
use nextballup.Core.Text.{Text, codes, text_eq, is_blank}
use nextballup.Core.Errors.{AppError, ErrorClass, ErrorCode}
use nextballup.Core.Json.{Json, Fields}
use nextballup.Db.{Video}
use nextballup.Worker.Verify.{HeadResult, metadata_checksum_sha256, sizes_differ}
use nextballup.Api.Result.{app_error}
use nextballup.Api.Videos.{storage_error, invalid_state}

pub record UploadPart : Type 0 where
  pub part_number : ℕ
  pub etag : Text

-- `parts` is empty where the payload has None, which the code tests alike.
pub record CompleteUploadRequest : Type 0 where
  pub checksum_sha256 : Option Text
  pub parts : List UploadPart

-- The object store: whether the multipart upload completes, and what `head_object` answers then.
pub record ObjectStore : Type 0 where
  pub complete_multipart : Text → Text → List UploadPart → Bool
  pub head_object : Text → HeadResult
  pub decode : Text → Option Text

-- What stops a completion: an error, with the `extra` of the failure that is recorded, if any.
pub data UploadCheck : Type 0 where
  accepted : UploadCheck
  refused : AppError → Option Fields → UploadCheck

abbrev because : String → Option Fields
because reason = some (Fields.field "reason" (Json.str (codes reason)) Fields.end)

-- `payload.checksum_sha256 or video.checksum_sha256`
unfoldable pub expected_checksum : Option Text → Option Text → Option Text
expected_checksum requested recorded = if is_blank requested then recorded else requested

-- Both digests are there and differ.
unfoldable pub digests_differ : Option Text → Option Text → Bool
unfolding text_eq
digests_differ none actual = false
digests_differ (some expected) none = false
digests_differ (some expected) (some actual) = not (text_eq actual expected)

-- `_verify_uploaded_object` below the lookup of the object.
verify_metadata : (Text → Option Text) → Video → Option Text → HeadResult → Text → UploadCheck
unfolding sizes_differ digests_differ metadata_checksum_sha256
verify_metadata decode video expected (HeadResult.head_failed _) reason =
    UploadCheck.refused storage_error (some (Fields.field "reason" (Json.str reason) Fields.end))
verify_metadata decode video expected HeadResult.head_missing reason =
    UploadCheck.refused invalid_state (because "upload_not_found")
verify_metadata decode video expected (HeadResult.head_found head) reason =
    if sizes_differ head.content_length video.file_size_bytes
    then UploadCheck.refused invalid_state (because "upload_size_mismatch")
    else if digests_differ expected (metadata_checksum_sha256 decode head)
    then UploadCheck.refused invalid_state (because "upload_checksum_mismatch")
    else UploadCheck.accepted

unfoldable pub verify_uploaded_object : ObjectStore → Video → Option Text → Text → UploadCheck
unfolding verify_metadata
verify_uploaded_object store video expected reason = elim video.storage_key_raw [
  | none ↦ UploadCheck.refused invalid_state (because "missing_storage_key")
  | some key ↦
      if is_blank (some key)
      then UploadCheck.refused invalid_state (because "missing_storage_key")
      else verify_metadata store.decode video expected (store.head_object key) reason
]

-- `part.part_number in seen` for some part.
unfoldable pub has_duplicate_part : List UploadPart → Bool
unfolding any_where
has_duplicate_part [] = false
has_duplicate_part (p ∷ ps) =
    if any_where (λ q. q.part_number == p.part_number) ps then true else has_duplicate_part ps

abbrev key_or_empty : Option Text → Text
key_or_empty none = []
key_or_empty (some key) = key

finish_multipart : ObjectStore → Video → Text → List UploadPart → Option Text → UploadCheck
unfolding verify_uploaded_object
finish_multipart store video upload_id parts expected =
    if store.complete_multipart (key_or_empty video.storage_key_raw) upload_id parts
    then verify_uploaded_object store video expected (codes "storage_complete_failed")
    else UploadCheck.refused storage_error (because "storage_complete_failed")

abbrev no_storage : UploadCheck
no_storage =
    UploadCheck.refused
      (app_error ErrorClass.service_unavailable_error ErrorCode.storage_not_configured) none

-- The branch on `video.upload_id`.
unfoldable pub check_upload :
    Option ObjectStore → Video → CompleteUploadRequest → Option Text → UploadCheck
unfolding has_duplicate_part finish_multipart verify_uploaded_object
check_upload storage video payload expected = elim video.upload_id [
  | none ↦ elim storage [
    | none ↦ no_storage
    | some store ↦ verify_uploaded_object store video expected (codes "storage_head_failed")
  ]
  | some upload_id ↦ elim payload.parts [
    | [] ↦
        UploadCheck.refused
          (app_error ErrorClass.validation_failed_error ErrorCode.multipart_parts_required) none
    | p ∷ ps ↦
        if has_duplicate_part (p ∷ ps)
        then UploadCheck.refused
            (app_error ErrorClass.validation_failed_error ErrorCode.invalid_multipart_parts) none
        else elim storage [
          | none ↦ no_storage
          | some store ↦ finish_multipart store video upload_id (p ∷ ps) expected
        ]
  ]
]
