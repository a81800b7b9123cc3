-- ===== src/Clips/Words.antt =====
-- proposals.py: `_humanize_event_type` and `_format_time`.
use nextballup.Prelude.{
  ℕ, ◌+◌, ◌-◌, ◌/◌, ◌%◌, Bool, false, ◌&&◌, ◌||◌, [], ◌∷◌, ◌++◌, ◌==◌, ltb, leb, if◌then◌else◌,
}
use nextballup.Core.Text.{Text, codes, strip, decimal, is_empty}

-- `str.title` on ASCII: a letter is upper case behind what is no letter.
abbrev is_letter : ℕ → Bool
is_letter c = leb 65 c && leb c 90 || leb 97 c && leb c 122

abbrev upper_char : ℕ → ℕ
upper_char c = if leb 97 c && leb c 122 then c - 32 else c

abbrev lower_char : ℕ → ℕ
lower_char c = if leb 65 c && leb c 90 then c + 32 else c

unfoldable pub title : Bool → Text → Text
title in_word [] = []
title in_word (c ∷ s) = (if in_word then lower_char c else upper_char c) ∷ title (is_letter c) s

abbrev underscores_to_spaces : Text → Text
underscores_to_spaces [] = []
underscores_to_spaces (c ∷ s) = (if c == b'_' then b' ' else c) ∷ underscores_to_spaces s

unfoldable pub humanize_event_type : Text → Text
unfolding title strip
humanize_event_type value =
    let words = title false (strip (underscores_to_spaces value)) in
    if is_empty words then codes "Event" else words

-- `{n:02d}`
abbrev two_digits : ℕ → Text
unfolding decimal
two_digits n = if ltb n 10 then b'0' ∷ decimal n else decimal n

unfoldable pub format_time : ℕ → Text
unfolding decimal
format_time value_ms =
    let total_seconds = value_ms / 1000 in
    two_digits (total_seconds / 60) ++ (b':' ∷ two_digits (total_seconds % 60))
