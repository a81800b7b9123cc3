-- ===== src/Api/Storage.antt =====
-- apps/api/src/nextballup_api/storage.py: the keys of the objects and the presigning of an upload. The
-- S3 client's answers are the argument `S3Client`, None where a call of it raises.
pub mod Keys
pub mod Parts
use Prim.Native.String.{String}
use mathlib.Core.Option
use mathlib.Core.List.{reverse}
use nextballup.Prelude.{
  ℕ, zero, suc, ◌+◌, ◌-◌, ◌/◌, Bool, true, false, ◌&&◌, ◌||◌, Option, none, some, List, [], ◌∷◌,
  ◌++◌, ◌==◌, ltb, leb, if◌then◌else◌, take,
}
use nextballup.Core.Text.{Text, codes, is_empty, strip_by}

-- A character of `[A-Za-z0-9._-]`.
abbrev pub is_filename_char : ℕ → Bool
is_filename_char c =
    if leb b'a' c && leb c b'z'
    then true
    else if leb b'A' c && leb c b'Z'
    then true
    else if leb b'0' c && leb c b'9'
    then true
    else c == b'.' || c == b'_' || c == b'-'

-- `_SAFE_FILENAME_CHARS.sub("_", filename)`
unfoldable pub replace_unsafe : Text → Text
replace_unsafe [] = []
replace_unsafe (c ∷ s) = (if is_filename_char c then c else b'_') ∷ replace_unsafe s

-- What stands for a run of dots.
abbrev pub dot_run : ℕ → Text
dot_run zero = []
dot_run (suc zero) = b'.' ∷ []
dot_run (suc (suc _)) = b'_' ∷ b'_' ∷ []

-- `_MULTIDOT.sub("__", cleaned)`, after a run of `dots` dots.
unfoldable pub replace_dot_runs : ℕ → Text → Text
replace_dot_runs dots [] = dot_run dots
replace_dot_runs dots (c ∷ s) = elim (c == b'.') [
  | true ↦ replace_dot_runs (suc dots) s
  | false ↦ dot_run dots ++ (c ∷ replace_dot_runs 0 s)
]

abbrev pub is_dot_or_underscore : ℕ → Bool
is_dot_or_underscore c = c == b'.' || c == b'_'

abbrev pub or_upload : Text → Text
or_upload [] = codes "upload"
or_upload (c ∷ s) = c ∷ s

unfoldable pub sanitize_filename_component : Text → Text
unfolding replace_unsafe replace_dot_runs strip_by
sanitize_filename_component filename =
    if is_empty filename
    then codes "upload"
    else take 200
        (or_upload (strip_by is_dot_or_underscore (replace_dot_runs 0 (replace_unsafe filename))))

unfoldable pub storage_key_for_video : Text → Text → Text → Text
unfolding sanitize_filename_component
storage_key_for_video team_id video_id filename =
    codes "raw/"
    ++ (team_id ++ (codes "/" ++ (video_id ++ (codes "/" ++ sanitize_filename_component filename))))

pub data UploadMethod : Type 0 where
  put multipart : UploadMethod

pub record PresignedPart : Type 0 where
  pub part_number : ℕ
  pub url : Text

pub record PresignedUpload : Type 0 where
  pub method : UploadMethod
  pub url : Option Text
  pub headers : List (String × Text)
  pub upload_id : Option Text
  pub parts : List PresignedPart
  pub part_size_bytes : Option ℕ

-- `generate_presigned_url` for a PUT and for a part, and `create_multipart_upload` with the UploadId
-- of its response.
pub record S3Client : Type 0 where
  pub sign_put : Text → Option Text
  pub sign_part : Text → Text → ℕ → Option Text
  pub create_multipart_upload : Text → Option (Option Text)

pub record StorageSettings : Type 0 where
  pub upload_multipart_threshold_bytes : ℕ
  pub upload_multipart_part_size_bytes : ℕ
  pub upload_presigned_put_checksum_header : Bool

-- `max(1, ...)`
abbrev pub at_least_one : ℕ → ℕ
at_least_one zero = 1
at_least_one (suc n) = suc n

-- The parts from number `i` on.
unfoldable pub sign_parts : (ℕ → Option Text) → ℕ → ℕ → Option (List PresignedPart)
sign_parts sign i zero = some []
sign_parts sign i (suc n) = elim (sign i) [
  | none ↦ none
  | some url ↦
      Option.map (λ rest. record { part_number = i; url = url } ∷ rest) (sign_parts sign (i + 1) n)
]

-- The checksum in base64 is an argument of the headers.
abbrev put_headers : Bool → (Text → Text) → Text → Option Text → List (String × Text)
put_headers checksum_header base64 content_type none = ("Content-Type", content_type) ∷ []
put_headers checksum_header base64 content_type (some []) = ("Content-Type", content_type) ∷ []
put_headers checksum_header base64 content_type (some (c ∷ s)) =
    ("Content-Type", content_type)
    ∷ ((if checksum_header then ("x-amz-checksum-sha256", base64 (c ∷ s)) ∷ [] else [])
        ++ (("x-amz-meta-nbu-sha256", c ∷ s) ∷ []))

-- `not isinstance(upload_id, str) or not upload_id`
abbrev pub created_id : Option (Option Text) → Option Text
created_id none = none
created_id (some none) = none
created_id (some (some [])) = none
created_id (some (some (c ∷ s))) = some (c ∷ s)

-- None where the storage fails. A multipart upload that was begun is then aborted, which leaves no
-- trace in the database.
-- `ceil_quotient a b` is `math.ceil(a / b)`, whose quotient Python rounds to a float.
unfoldable pub presign_multipart :
    StorageSettings → S3Client → (ℕ → ℕ → ℕ) → Text → ℕ → Option PresignedUpload
unfolding sign_parts
presign_multipart settings client ceil_quotient key file_size_bytes =
    let part_size = settings.upload_multipart_part_size_bytes in
    elim (created_id (client.create_multipart_upload key)) [
      | none ↦ none
      | some upload_id ↦
          Option.map
            (λ parts. record {
              method = UploadMethod.multipart;
              url = none;
              headers = [];
              upload_id = some upload_id;
              parts = parts;
              part_size_bytes = some part_size;
            })
            (sign_parts (client.sign_part key upload_id) 1
              (at_least_one (ceil_quotient file_size_bytes part_size)))
    ]

unfoldable pub presign_upload :
    StorageSettings
    → S3Client
    → (Text → Text)
    → (ℕ → ℕ → ℕ)
    → Text
    → Text
    → ℕ
    → Option Text
    → Option PresignedUpload
unfolding presign_multipart
presign_upload settings client base64 ceil_quotient key content_type file_size_bytes
      checksum_sha256 =
    if leb file_size_bytes settings.upload_multipart_threshold_bytes
    then Option.map
        (λ url. record {
          method = UploadMethod.put;
          url = some url;
          headers =
              put_headers settings.upload_presigned_put_checksum_header base64 content_type
                checksum_sha256;
          upload_id = none;
          parts = [];
          part_size_bytes = none;
        })
        (client.sign_put key)
    else presign_multipart settings client ceil_quotient key file_size_bytes
