-- ===== src/Clips/Window.antt =====
-- proposals.py: the window of a proposed clip.
use nextballup.Prelude.{
  ℕ, ◌+◌, ◌-◌, ◌≤◌, ◌<◌, ◌≡◌, false, Option, none, some, arith, leb, if◌then◌else◌, inl, inr,
  Bool-cases, Option-cases, or_else, find_where,
}
use nextballup.Core.Text.{Text, codes, text_eq}
use nextballup.Core.Json.{Json, get_field, dict_of, int_of}
use nextballup.Clips.{
  ClipEvent, min_nat, get_text, windows_ms, clip_center_ms, window_override, window_for_event,
  clip_window,
}

-- A part of a window lies between one second and fifteen.
abbrev IsPart : ℕ → Type 0
IsPart n = (1000 ≤ n) × (n ≤ 15000)

window_override-IsPart : (value : Option Json) (n : ℕ) → IsPart n → IsPart (window_override value n)
unfolding window_override min_nat
window_override-IsPart value n h = elim (Option-cases (int_of value)) [
  | inl e ↦ rw (e, window_override) h
  | inr (z, e) ↦ rw (e, window_override) (ground arith)
]

default-IsPart :
    (key : Text) → let d = or_else (get_text key windows_ms) (3000, 5000) in IsPart d.0 × IsPart d.1
unfolding get_text find_where
default-IsPart key = elim (Bool-cases (text_eq (codes "shot_attempt") key)) [
  | inl t ↦ rw t (omega arith)
  | inr a ↦ elim (Bool-cases (text_eq (codes "shot_made") key)) [
    | inl t ↦ rw (a, t) (omega arith)
    | inr b ↦ elim (Bool-cases (text_eq (codes "rebound") key)) [
      | inl t ↦ rw (a, b, t) (omega arith)
      | inr c ↦ elim (Bool-cases (text_eq (codes "pass") key)) [
        | inl t ↦ rw (a, b, c, t) (omega arith)
        | inr d ↦ rw (a, b, c, d) (omega arith)
      ]
    ]
  ]
]

window_for_event-IsPart :
    (event : ClipEvent) → IsPart (window_for_event event).0 × IsPart (window_for_event event).1
unfolding window_for_event
window_for_event-IsPart event =
    let d = default-IsPart event.event_type in
    (
      window_override-IsPart (get_field "clip_pre_ms" (dict_of event.metadata)) _ d.0,
      window_override-IsPart (get_field "clip_post_ms" (dict_of event.metadata)) _ d.1,
    )

-- The end of a window lies in the video, where its length is known.
abbrev pub EndsWithin : ℕ → Option ℕ → Type 0
EndsWithin end_ms none = Unit
EndsWithin end_ms (some d) = end_ms ≤ d

-- A known length is not zero milliseconds.
abbrev pub IsLength : Option ℕ → Type 0
IsLength none = Unit
IsLength (some d) = 0 < d

abbrev pub IsClip : Option ℕ → ℕ → ℕ → Type 0
IsClip duration start end_ms =
    (start < end_ms) × (end_ms ≤ start + 30000) × EndsWithin end_ms duration

min_nat-le : (a b : ℕ) → (min_nat a b ≤ a) × (min_nat a b ≤ b)
unfolding min_nat
min_nat-le a b = ground arith

leb-false : {a b : ℕ} → leb a b ≡ false → b < a
leb-false h = ground arith

pub clip_window-IsClip :
    (event : ClipEvent) (duration : Option ℕ)
    → IsLength duration
    → IsClip duration (clip_window event duration).0 (clip_window event duration).1
unfolding clip_window clip_center_ms
clip_window-IsClip event none h =
    let parts = window_for_event-IsPart event in (omega arith, omega arith, tt)
clip_window-IsClip event (some d) h =
    let parts = window_for_event-IsPart event in
    let center = min_nat event.event_time_ms d in
    let inside = (min_nat-le event.event_time_ms d).1 in
    let ends = min_nat-le d (center + (window_for_event event).1) in
    elim (Bool-cases (
      leb (min_nat d (center + (window_for_event event).1))
        (center - (window_for_event event).0))) [
          | inl t ↦ rw (t, if◌then◌else◌) (omega arith, omega arith, omega arith)
          | inr n ↦
              let open_end : center - (window_for_event event).0
                  < min_nat d (center + (window_for_event event).1) =
                leb-false n in
              rw (n, if◌then◌else◌) (omega arith, omega arith, omega arith)
        ]
