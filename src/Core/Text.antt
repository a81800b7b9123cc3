-- ===== src/Core/Text.antt =====
-- Python's str as its list of code points, as far as the program builds, cuts and compares texts.
use Prim.Native.Char.{code}
use Prim.Native.String.{String}
use mathlib.Core.List.{reverse}
use nextballup.Prelude.{
  ℕ, zero, suc, ◌+◌, ◌-◌, ◌*◌, ◌/◌, ◌%◌, ◌++◌, ltb, ◌≡◌, refl, Bool, true, false, ◌&&◌, ◌||◌,
  Option, none, some, List, [], ◌∷◌, arith, ◌==◌, leb, if◌then◌else◌, ◌≤◌, inl, inr, Bool-cases,
  All, All-append,
}

abbrev pub Text : Type 0
Text = List ℕ

abbrev pub codes : String → Text
codes String.[] = []
codes (String.◌∷◌ c s) = code c ∷ codes s

unfoldable pub text_eq : Text → Text → Bool
text_eq [] [] = true
text_eq [] (_ ∷ _) = false
text_eq (_ ∷ _) [] = false
text_eq (a ∷ s) (b ∷ t) = if a == b then text_eq s t else false

pub text_eq_sound : (s t : Text) → text_eq s t ≡ true → s ≡ t
unfolding text_eq
text_eq_sound [] [] h = refl
text_eq_sound [] (_ ∷ _) h = cc
text_eq_sound (_ ∷ _) [] h = cc
text_eq_sound (a ∷ s) (b ∷ t) h = ground (arith, text_eq_sound s t)

pub text_eq_refl : (s : Text) → text_eq s s ≡ true
unfolding text_eq
text_eq_refl [] = refl
text_eq_refl (a ∷ s) = ground (arith, text_eq_refl s)

abbrev pub is_empty : Text → Bool
is_empty [] = true
is_empty (_ ∷ _) = false

-- `".." in s`
abbrev pub has_dots : Text → Bool
has_dots [] = false
has_dots (c ∷ []) = false
has_dots (c ∷ d ∷ s) = (c == b'.' && d == b'.') || has_dots (d ∷ s)

-- `not value` for a text column that may be NULL.
abbrev pub is_blank : Option Text → Bool
is_blank none = true
is_blank (some s) = is_empty s

-- `a and b and a != b` for two texts that may be missing.
unfoldable pub texts_differ : Option Text → Option Text → Bool
texts_differ none _ = false
texts_differ (some _) none = false
texts_differ (some []) (some _) = false
texts_differ (some (_ ∷ _)) (some []) = false
texts_differ (some (a ∷ s)) (some (b ∷ t)) = if text_eq (a ∷ s) (b ∷ t) then false else true

-- `str.isspace`: the code points that `strip()` takes off.
is_space : ℕ → Bool
is_space c =
    if leb 9 c && leb c 13
    then true
    else if leb 28 c && leb c 32
    then true
    else if leb 8192 c && leb c 8202
    then true
    else if c == 133 || c == 160 || c == 5760
    then true
    else c == 8232 || c == 8233 || c == 8239 || c == 8287 || c == 12288

-- `lstrip` by a set of characters, and `strip`.
unfoldable pub lstrip_by : (ℕ → Bool) → Text → Text
lstrip_by p [] = []
lstrip_by p (c ∷ s) = if p c then lstrip_by p s else c ∷ s

unfoldable pub strip_by : (ℕ → Bool) → Text → Text
unfolding lstrip_by
strip_by p s = reverse (lstrip_by p (reverse (lstrip_by p s)))

unfoldable pub strip : Text → Text
unfolding strip_by is_space
strip = strip_by is_space

-- `lower()` and `upper()` on ASCII letters, which are all that the program's inputs hold here.
unfoldable pub lower : Text → Text
lower [] = []
lower (c ∷ s) = (if leb 65 c && leb c 90 then c + 32 else c) ∷ lower s

unfoldable pub upper : Text → Text
upper [] = []
upper (c ∷ s) = (if leb 97 c && leb c 122 then c - 32 else c) ∷ upper s

-- `text or None`
abbrev pub non_empty : Text → Option Text
non_empty [] = none
non_empty (c ∷ s) = some (c ∷ s)

-- str(n) of a natural number; n is at least its number of digits.
decimal_within : ℕ → ℕ → Text
decimal_within zero n = (48 + n % 10) ∷ []
decimal_within (suc fuel) n = elim (ltb n 10) [
  | true ↦ (48 + n) ∷ []
  | false ↦ decimal_within fuel (n / 10) ++ ((48 + n % 10) ∷ [])
]

unfoldable pub decimal : ℕ → Text
unfolding decimal_within
decimal n = decimal_within n n

-- The digits of a decimal are those of ASCII.
abbrev pub IsDigit : ℕ → Type 0
IsDigit c = (48 ≤ c) × (c ≤ 57)

decimal_within-IsDigit : (fuel n : ℕ) → All IsDigit (decimal_within fuel n)
unfolding decimal_within
decimal_within-IsDigit zero n = (omega arith, tt)
decimal_within-IsDigit (suc fuel) n = elim (Bool-cases (ltb n 10)) [
  | inl t ↦ rw (t, decimal_within) (ground arith)
  | inr f ↦
      rw (f, decimal_within)
        (All-append IsDigit (decimal_within fuel (n / 10)) ((48 + n % 10) ∷ [])
          (decimal_within-IsDigit fuel (n / 10)) (omega arith, tt))
]

pub decimal-IsDigit : (n : ℕ) → All IsDigit (decimal n)
unfolding decimal
decimal-IsDigit n = decimal_within-IsDigit n n

-- int(s) of a text of digits.
abbrev pub value_from : ℕ → Text → ℕ
value_from acc [] = acc
value_from acc (c ∷ s) = value_from (acc * 10 + (c - 48)) s

value_from-snoc :
    (acc : ℕ) (s : Text) (c : ℕ) → value_from acc (s ++ (c ∷ [])) ≡ value_from acc s * 10 + (c - 48)
value_from-snoc acc [] c = refl
value_from-snoc acc (d ∷ s) c = value_from-snoc (acc * 10 + (d - 48)) s c

value_from-decimal_within : (fuel n : ℕ) → n ≤ fuel → value_from 0 (decimal_within fuel n) ≡ n
unfolding decimal_within
value_from-decimal_within zero n h = omega arith
value_from-decimal_within (suc fuel) n h = elim (Bool-cases (ltb n 10)) [
  | inl t ↦ rw (t, decimal_within) (omega arith)
  | inr f ↦
      let ten : 10 ≤ n = ground arith in
      rw
        (
          f,
          decimal_within,
          value_from-snoc 0 (decimal_within fuel (n / 10)) (48 + n % 10),
          value_from-decimal_within fuel (n / 10) (omega arith),
        )
        (omega arith)
]

pub value_from-decimal : (n : ℕ) → value_from 0 (decimal n) ≡ n
unfolding decimal
value_from-decimal n = value_from-decimal_within n n (omega arith)
