-- ===== src/Api/Storage/Keys.antt =====
-- storage.py: what the key of an uploaded file looks like, whatever name the client gave.
use mathlib.Core.List.{reverse, reverse-cons}
use nextballup.Prelude.{
  ℕ, zero, suc, ◌≤◌, ◌<◌, ◌≡◌, refl, Bool, true, false, ◌&&◌, ◌||◌, [], ◌∷◌, ◌++◌, arith, ◌==◌,
  if◌then◌else◌, All, All-append, or_false, ◌∙◌, length-take, take, length, inl, inr, Bool-cases,
}
use nextballup.Core.Text.{Text, is_empty, strip_by, lstrip_by, has_dots}
use nextballup.Api.Storage.{
  is_filename_char, replace_unsafe, dot_run, replace_dot_runs, is_dot_or_underscore, or_upload,
  sanitize_filename_component,
}

abbrev IsSafe : ℕ → Type 0
IsSafe c = is_filename_char c ≡ true

replace_unsafe-IsSafe : (s : Text) → All IsSafe (replace_unsafe s)
unfolding replace_unsafe
replace_unsafe-IsSafe [] = tt
replace_unsafe-IsSafe (c ∷ s) = elim (Bool-cases (is_filename_char c)) [
  | inl t ↦ (rw (t, if◌then◌else◌) t, replace_unsafe-IsSafe s)
  | inr n ↦ (rw (n, if◌then◌else◌) refl, replace_unsafe-IsSafe s)
]

dot_run-IsSafe : (dots : ℕ) → All IsSafe (dot_run dots)
dot_run-IsSafe zero = tt
dot_run-IsSafe (suc zero) = (refl, tt)
dot_run-IsSafe (suc (suc n)) = (refl, (refl, tt))

replace_dot_runs-IsSafe :
    (dots : ℕ) (s : Text) → All IsSafe s → All IsSafe (replace_dot_runs dots s)
unfolding replace_dot_runs
replace_dot_runs-IsSafe dots [] h = dot_run-IsSafe dots
replace_dot_runs-IsSafe dots (c ∷ s) h = elim (Bool-cases (c == b'.')) [
  | inl t ↦ rw (t, replace_dot_runs) (replace_dot_runs-IsSafe (suc dots) s h.1)
  | inr n ↦
      rw (n, replace_dot_runs)
        (All-append IsSafe (dot_run dots) (c ∷ replace_dot_runs 0 s) (dot_run-IsSafe dots)
          (h.0, replace_dot_runs-IsSafe 0 s h.1))
]

All-reverse : (s : Text) → All IsSafe s → All IsSafe (reverse s)
All-reverse [] h = tt
All-reverse (c ∷ s) h =
    rw (reverse-cons c s) (All-append IsSafe (reverse s) (c ∷ []) (All-reverse s h.1) (h.0, tt))

All-lstrip_by : (p : ℕ → Bool) (s : Text) → All IsSafe s → All IsSafe (lstrip_by p s)
unfolding lstrip_by
All-lstrip_by p [] h = tt
All-lstrip_by p (c ∷ s) h = elim (Bool-cases (p c)) [
  | inl t ↦ rw t (All-lstrip_by p s h.1)
  | inr n ↦ rw n h
]

All-strip_by : (p : ℕ → Bool) (s : Text) → All IsSafe s → All IsSafe (strip_by p s)
unfolding strip_by
All-strip_by p s h =
    All-reverse (lstrip_by p (reverse (lstrip_by p s))) (
      All-lstrip_by p (reverse (lstrip_by p s)) (All-reverse (lstrip_by p s) (All-lstrip_by p s h)))

All-take : (n : ℕ) (s : Text) → All IsSafe s → All IsSafe (take n s)
All-take zero s h = tt
All-take (suc n) [] h = tt
All-take (suc n) (c ∷ s) h = (h.0, All-take n s h.1)

has_dots-cons :
    (c : ℕ) (s : Text) → (c == b'.') ≡ false → has_dots s ≡ false → has_dots (c ∷ s) ≡ false
has_dots-cons c [] n h = refl
has_dots-cons c (d ∷ s) n h = rw (n, h) refl

has_dots-dot_run :
    (dots c : ℕ) (s : Text)
    → (c == b'.') ≡ false
    → has_dots (c ∷ s) ≡ false
    → has_dots (dot_run dots ++ (c ∷ s)) ≡ false
has_dots-dot_run zero c s n h = h
has_dots-dot_run (suc zero) c s n h = rw (n, h) refl
has_dots-dot_run (suc (suc k)) c s n h = h

replace_dot_runs-has_dots : (dots : ℕ) (s : Text) → has_dots (replace_dot_runs dots s) ≡ false
unfolding replace_dot_runs
replace_dot_runs-has_dots zero [] = refl
replace_dot_runs-has_dots (suc zero) [] = refl
replace_dot_runs-has_dots (suc (suc k)) [] = refl
replace_dot_runs-has_dots dots (c ∷ s) = elim (Bool-cases (c == b'.')) [
  | inl t ↦ rw (t, replace_dot_runs) (replace_dot_runs-has_dots (suc dots) s)
  | inr n ↦
      rw (n, replace_dot_runs)
        (has_dots-dot_run dots c (replace_dot_runs 0 s) n
          (has_dots-cons c (replace_dot_runs 0 s) n (replace_dot_runs-has_dots 0 s)))
]

has_dots-tail : (c : ℕ) (s : Text) → has_dots (c ∷ s) ≡ false → has_dots s ≡ false
has_dots-tail c [] h = refl
has_dots-tail c (d ∷ s) h = (or_false (c == b'.' && d == b'.') (has_dots (d ∷ s)) h).1

has_dots-lstrip_by :
    (p : ℕ → Bool) (s : Text) → has_dots s ≡ false → has_dots (lstrip_by p s) ≡ false
unfolding lstrip_by
has_dots-lstrip_by p [] h = refl
has_dots-lstrip_by p (c ∷ s) h = elim (Bool-cases (p c)) [
  | inl t ↦ rw t (has_dots-lstrip_by p s (has_dots-tail c s h))
  | inr n ↦ rw n h
]

has_dots-snoc :
    (t : Text) (d c : ℕ)
    → has_dots ((t ++ (d ∷ [])) ++ (c ∷ []))
      ≡ (has_dots (t ++ (d ∷ [])) || (d == b'.' && c == b'.'))
has_dots-snoc [] d c = ground arith
has_dots-snoc (a ∷ []) d c = ground arith
has_dots-snoc (a ∷ b ∷ t) d c = ground (arith, has_dots-snoc (b ∷ t) d c)

has_dots-reverse : (s : Text) → has_dots (reverse s) ≡ has_dots s
has_dots-reverse [] = refl
has_dots-reverse (c ∷ []) = refl
has_dots-reverse (c ∷ d ∷ s) =
    let ih : has_dots (reverse s ++ (d ∷ [])) ≡ has_dots (d ∷ s) =
      rw (reverse-cons d s) at (has_dots-reverse (d ∷ s)) in
    rw (reverse-cons c (d ∷ s), reverse-cons d s, has_dots-snoc (reverse s) d c) (ground arith)

has_dots-strip_by : (p : ℕ → Bool) (s : Text) → has_dots s ≡ false → has_dots (strip_by p s) ≡ false
unfolding strip_by
has_dots-strip_by p s h =
    has_dots-reverse (lstrip_by p (reverse (lstrip_by p s)))
    ∙ has_dots-lstrip_by p (reverse (lstrip_by p s))
        (has_dots-reverse (lstrip_by p s) ∙ has_dots-lstrip_by p s h)

has_dots-take : (n : ℕ) (s : Text) → has_dots s ≡ false → has_dots (take n s) ≡ false
has_dots-take zero s h = refl
has_dots-take (suc n) [] h = refl
has_dots-take (suc zero) (c ∷ s) h = refl
has_dots-take (suc (suc n)) (c ∷ []) h = refl
has_dots-take (suc (suc n)) (c ∷ d ∷ s) h =
    let parts = or_false (c == b'.' && d == b'.') (has_dots (d ∷ s)) h in
    rw (parts.0, has_dots-take (suc n) (d ∷ s) parts.1) refl

or_upload-length : (s : Text) → 0 < length (or_upload s)
or_upload-length [] = omega arith
or_upload-length (c ∷ s) = omega arith

take-pos : (n : ℕ) (s : Text) → 0 < n → 0 < length s → 0 < length (take n s)
take-pos zero s h k = absurd (omega arith)
take-pos (suc n) [] h k = absurd (omega arith)
take-pos (suc n) (c ∷ s) h k = omega arith

or_upload-IsSafe : (s : Text) → All IsSafe s → All IsSafe (or_upload s)
or_upload-IsSafe [] h = ground arith
or_upload-IsSafe (c ∷ s) h = h

or_upload-has_dots : (s : Text) → has_dots s ≡ false → has_dots (or_upload s) ≡ false
or_upload-has_dots [] h = refl
or_upload-has_dots (c ∷ s) h = h

-- The last part of the key of an upload is, whatever file name the client sent, not empty, at most 200
-- characters long, made of ASCII letters, digits, `.`, `_` and `-` only, and without two dots in a row.
pub sanitize_filename_component-Safe :
    (filename : Text)
    → let name = sanitize_filename_component filename in
      (0 < length name)
      × (length name ≤ 200)
      × All (λ c. is_filename_char c ≡ true) name
      × (has_dots name ≡ false)
unfolding sanitize_filename_component strip_by
sanitize_filename_component-Safe filename = elim (Bool-cases (is_empty filename)) [
  | inl t ↦ rw t (omega arith, omega arith, ground arith, refl)
  | inr n ↦
      let clean = replace_dot_runs 0 (replace_unsafe filename) in
      let name = strip_by is_dot_or_underscore clean in
      let safe =
        All-strip_by is_dot_or_underscore clean
          (replace_dot_runs-IsSafe 0 _ (replace_unsafe-IsSafe filename)) in
      let dots =
        has_dots-strip_by is_dot_or_underscore clean
          (replace_dot_runs-has_dots 0 (replace_unsafe filename)) in
      rw n (
        take-pos 200 (or_upload name) (omega arith) (or_upload-length name),
        length-take 200 (or_upload name),
        All-take 200 (or_upload name) (or_upload-IsSafe name safe),
        has_dots-take 200 (or_upload name) (or_upload-has_dots name dots),
      )
]
