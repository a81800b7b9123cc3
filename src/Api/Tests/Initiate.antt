-- ===== src/Api/Tests/Initiate.antt =====
-- The theorems on the initiation of an upload, at a small database.
use nextballup.Prelude.{
  ◌+◌, ◌*◌, ◌≤◌, ◌<◌, ◌≡◌, refl, true, false, none, some, [], ◌∷◌, arith, All, length, find_where,
  filter_where, any_where,
}
use mathlib.Core.Option
use nextballup.Prelude.Int.{◌+ℤ◌}
use nextballup.Core.Text.{codes, decimal, has_dots, text_eq, strip, lower}
use nextballup.Core.Enums.{TeamLevel, InstitutionType, VideoStatus}
use nextballup.Db.{Db, Team, Video}
use nextballup.Api.RateLimit.{enforce_rate_limit}
use nextballup.Api.Permissions.{require_verified_account, require_team_coach}
use nextballup.Api.Billing.{
  TeamPlanContext, resolve_team_plan, upload_quota_of, storage_quota_of, within_limit,
  get_or_create_account_for_team, metered_subscription, check_video_upload_quota,
  check_video_storage_quota, videos_used_this_period, storage_bytes_reserved,
}
use nextballup.Api.Storage.{
  UploadMethod, PresignedUpload, S3Client, presign_upload, presign_multipart, sign_parts,
  sanitize_filename_component, is_filename_char,
}
use nextballup.Api.Storage.Keys.{sanitize_filename_component-Safe}
use nextballup.Api.Storage.Parts.{Numbered, exact_ceil, presign_upload_covers}
use nextballup.Api.Initiate.{
  CreateUploadRequest, initiate_upload, presign_video, validate_upload, filename_is_safe, text_in,
  filename_extension_allowed, after_admission,
}
use nextballup.Api.Initiate.Admit.{UploadSettings, UploadAnswers, admit_upload}
use nextballup.Api.Initiate.Within.{initiate_upload_within}
use nextballup.Api.Tests.{coach, coaching, billed}

abbrev upload_settings : UploadSettings
upload_settings = record {
  limits = record {
    allowed_video_content_types = codes "video/mp4" ∷ [];
    upload_content_type_extensions = (codes "video/mp4", codes ".mp4" ∷ []) ∷ [];
    min_upload_size_bytes = 1;
    max_upload_size_bytes = 5000;
  };
  storage = record {
    upload_multipart_threshold_bytes = 1000;
    upload_multipart_part_size_bytes = 100;
    upload_presigned_put_checksum_header = true;
  };
  verified_only = true;
  sensitive_consent = true;
  video_upload_rate_limit_attempts = 5;
  billing_default_plan_code = codes "free";
  upload_url_expires_seconds = 60;
}

abbrev request : CreateUploadRequest
request = record {
  game_id = 4;
  filename = codes "a.mp4";
  file_size_bytes = 900;
  content_type = codes "video/mp4";
  checksum_sha256 = none;
  privacy_consent_id = none;
}

abbrev client : S3Client
client = record {
  sign_put = λ key. some key;
  sign_part = λ key upload_id i. some (i ∷ key);
  create_multipart_upload = λ key. some (some (codes "up"));
}

abbrev outside : UploadAnswers
outside = record {
  limiter = record { redis_url = false; fail_closed = false; count = none };
  storage = some client;
  base64 = λ t. t;
  ceil_quotient = exact_ceil;
  uuid_text = decimal;
  video_id = 9;
  account_id = 50;
}

abbrev club : Team
club = record {
  id = 1;
  name = codes "c";
  level = TeamLevel.professional;
  institution_type = InstitutionType.club;
  invite_code = codes "i";
  is_active = true;
  deleted_at = none;
}

abbrev playing : Db
playing = record billed {
  memberships = coaching ∷ [];
  teams = club ∷ [];
  games =
      record { id = 4; team_id = 1; shot_clock_enabled = false; shot_clock_seconds = none } ∷ [];
}

abbrev uploaded : Db
uploaded = (initiate_upload upload_settings coach request outside playing).1

initiate_upload_within_example :
    (v : Video) × (ctx : TeamPlanContext) × (uploaded.videos ≡ (v ∷ playing.videos))
    × (v.status ≡ VideoStatus.pending_upload)
    × (resolve_team_plan v.team_id uploaded ≡ some ctx)
    × (within_limit
          (upload_quota_of ctx.account_id uploaded).used
          (upload_quota_of ctx.account_id uploaded).limit
        ≡ true)
    × ((storage_quota_of ctx.account_id 0 uploaded).allowed ≡ true)
unfolding initiate_upload admit_upload after_admission validate_upload filename_is_safe text_in
    any_where text_eq strip lower filename_extension_allowed find_where filter_where
    require_verified_account require_team_coach enforce_rate_limit check_video_upload_quota
    get_or_create_account_for_team upload_quota_of metered_subscription Option.bind
    videos_used_this_period check_video_storage_quota storage_quota_of storage_bytes_reserved ◌+ℤ◌
    presign_video presign_upload
initiate_upload_within_example =
    initiate_upload_within upload_settings coach request outside playing (refl, tt) refl

-- A file of 250 bytes in parts of 100.
abbrev in_parts : PresignedUpload
in_parts = record {
  method = UploadMethod.multipart;
  url = none;
  headers = [];
  upload_id = some (codes "up");
  parts =
      record { part_number = 1; url = 1 ∷ codes "k" }
      ∷ record { part_number = 2; url = 2 ∷ codes "k" }
      ∷ record { part_number = 3; url = 3 ∷ codes "k" }
      ∷ [];
  part_size_bytes = some 100;
}

presign_upload_covers_example :
    Numbered 1 in_parts.parts
    × (250 ≤ length in_parts.parts * 100)
    × (length in_parts.parts * 100 < 250 + 100)
unfolding presign_upload presign_multipart sign_parts
presign_upload_covers_example =
    presign_upload_covers
      (record {
        upload_multipart_threshold_bytes = 100;
        upload_multipart_part_size_bytes = 100;
        upload_presigned_put_checksum_header = true;
      })
      client (λ t. t) exact_ceil (codes "k") (codes "video/mp4") 250 none {upload = in_parts}
      (λ a b _ _. refl) (omega arith) (omega arith) (omega arith) (omega arith) refl

sanitize_filename_component-Safe_example :
    let name = sanitize_filename_component (codes "../a b.mp4") in
    (0 < length name)
    × (length name ≤ 200)
    × All (λ c. is_filename_char c ≡ true) name
    × (has_dots name ≡ false)
sanitize_filename_component-Safe_example = sanitize_filename_component-Safe (codes "../a b.mp4")
