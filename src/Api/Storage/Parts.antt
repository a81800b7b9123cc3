-- ===== src/Api/Storage/Parts.antt =====
-- storage.py, `presign_upload`: the parts of a multipart upload.
use mathlib.Core.Option
use nextballup.Prelude.{
  ℕ, zero, suc, ◌+◌, ◌-◌, ◌*◌, ◌/◌, ◌≤◌, ◌<◌, ◌≡◌, refl, ap, false, Option, none, some, List, [],
  ◌∷◌, arith, leb, length, Option-cases, inl, inr,
}
use nextballup.Core.Text.{Text}
use nextballup.Api.Storage.{
  PresignedPart, PresignedUpload, S3Client, StorageSettings, at_least_one, created_id, sign_parts,
  presign_multipart, presign_upload,
}

-- The parts are numbered from `i` on.
abbrev pub Numbered : ℕ → List PresignedPart → Type 0
Numbered i [] = Unit
Numbered i (p ∷ ps) = (p.part_number ≡ i) × Numbered (i + 1) ps

sign_parts_lem :
    (sign : ℕ → Option Text) (i n : ℕ) {parts : List PresignedPart}
    → sign_parts sign i n ≡ some parts
    → Numbered i parts × (length parts ≡ n)
unfolding sign_parts
sign_parts_lem sign i zero {parts} e =
    let empty : [] ≡ parts = Option.some-injective [] parts e in rw (← empty) (tt, refl)
sign_parts_lem sign i (suc n) {parts} e = elim (Option-cases (sign i)) [
  | inl x ↦ let no : none ≡ some parts = rw (x, sign_parts) at e in absurd (cc no)
  | inr (url, x) ↦ elim (Option-cases (sign_parts sign (i + 1) n)) [
    | inl y ↦ let no : none ≡ some parts = rw (x, sign_parts, y) at e in absurd (cc no)
    | inr (rest, y) ↦
        let all : (record { part_number = i; url = url } ∷ rest) ≡ parts =
          Option.some-injective _ parts (rw (x, sign_parts, y) at e) in
        let ih = sign_parts_lem sign (i + 1) n y in rw (← all) ((refl, ih.0), omega (arith, ih.1))
  ]
]

div-bounds : (n b : ℕ) → 0 < b → (n / b * b ≤ n) × (n < n / b * b + b)
div-bounds n b h = grind arith

at_least_one_pos : (n : ℕ) → 0 < n → at_least_one n ≡ n
at_least_one_pos n h = ground arith

pos_of_mul : (q b : ℕ) → 0 < q * b → 0 < q
pos_of_mul zero b h = absurd (omega arith)
pos_of_mul (suc q) b h = omega arith

-- The integer ceiling of a quotient. Below 2 ^ 53 a float quotient is never rounded down onto an integer.
abbrev pub exact_ceil : ℕ → ℕ → ℕ
exact_ceil a b = (a + b - 1) / b

exact_ceil-covers :
    (a b : ℕ)
    → 0 < a
    → 0 < b
    → (a ≤ exact_ceil a b * b) × (exact_ceil a b * b < a + b) × (0 < exact_ceil a b)
exact_ceil-covers a b h k =
    let bounds = div-bounds (a + b - 1) b k in
    let covers : a ≤ exact_ceil a b * b = omega arith in
    (covers, omega arith, pos_of_mul (exact_ceil a b) b (omega arith))

-- An upload above the threshold, of fewer than 2 ^ 53 bytes, gets parts numbered from 1 on without a gap,
-- which are enough for the file at the part size, and without the last of which they would not be, given
-- that Python's ceiling of a float quotient is the exact one for a dividend below 2 ^ 53.
pub presign_upload_covers :
    (settings : StorageSettings) (client : S3Client) (base64 : Text → Text)
    (ceil_quotient : ℕ → ℕ → ℕ) (key content_type : Text) (size : ℕ) (checksum : Option Text)
    {upload : PresignedUpload}
    → ((a b : ℕ) → a < 9007199254740992 → 0 < b → ceil_quotient a b ≡ exact_ceil a b)
    → 0 < size
    → size < 9007199254740992
    → 0 < settings.upload_multipart_part_size_bytes
    → settings.upload_multipart_threshold_bytes < size
    → presign_upload settings client base64 ceil_quotient key content_type size checksum
      ≡ some upload
    → let part_size = settings.upload_multipart_part_size_bytes in
      Numbered 1 upload.parts
      × (size ≤ length upload.parts * part_size)
      × (length upload.parts * part_size < size + part_size)
unfolding presign_upload presign_multipart
presign_upload_covers settings client base64 ceil_quotient key content_type size checksum {upload}
      exact h small k t e =
    let part_size = settings.upload_multipart_part_size_bytes in
    let count = at_least_one (ceil_quotient size part_size) in
    let whole = exact size part_size small k in
    let large : leb size settings.upload_multipart_threshold_bytes ≡ false = ground arith in
    elim (Option-cases (created_id (client.create_multipart_upload key))) [
      | inl n ↦
          let no : none ≡ some upload = rw (large, presign_multipart, n) at e in absurd (cc no)
      | inr (id, i) ↦ elim (Option-cases (sign_parts (client.sign_part key id) 1 count)) [
        | inl n ↦
            let no : none ≡ some upload = rw (large, presign_multipart, i, n) at e in absurd (cc no)
        | inr (parts, s) ↦
            let made =
              ap (λ u. Option.map (λ x. x.parts) u) (rw (large, presign_multipart, i, s) at e) in
            let same : parts ≡ upload.parts = Option.some-injective parts upload.parts made in
            let signed = sign_parts_lem (client.sign_part key id) 1 count s in
            let covers = exact_ceil-covers size part_size h k in
            rw (← same, signed.1, whole, at_least_one_pos (exact_ceil size part_size) covers.2)
              (signed.0, covers.0, covers.1)
      ]
    ]
