-- ===== src/Api/Events/Bounds.antt =====
-- videos.py, `_resolve_clip_window`: the bounds of a clip window.
use nextballup.Prelude.{
  ℕ, ◌+◌, ◌-◌, ◌≤◌, ◌<◌, ◌≡◌, subst, not, ◌&&◌, Option, none, some, arith, ltb, leb, inl, inr,
  Bool-cases, if◌then◌else◌,
}
use nextballup.Prelude.Int.{pos}
use nextballup.Db.{VideoEvent}
use nextballup.Api.Result.{ok, ok-injective}
use nextballup.Api.Events.Clip.{
  clamp_clip_time, check_window, resolve_clip_window, max_review_window_ms,
}

-- The window contains its event, is not empty and is at most a minute long.
abbrev pub IsWindow : ℕ → ℕ → ℕ → Type 0
IsWindow event_time_ms start end_ms =
    (start < end_ms)
    × (start ≤ event_time_ms)
    × (event_time_ms ≤ end_ms)
    × (end_ms ≤ start + max_review_window_ms)

-- A row has no window of its own or a good one.
abbrev pub HasWindow : ℕ → Option ℕ → Option ℕ → Type 0
HasWindow event_time_ms none none = Unit
HasWindow event_time_ms (some start) (some end_ms) = IsWindow event_time_ms start end_ms
HasWindow event_time_ms _ _ = ⊥

abbrev pub EventOk : VideoEvent → Type 0
EventOk r = HasWindow r.event_time_ms r.clip_start_time_ms r.clip_end_time_ms

check_window-IsWindow : (t a b : ℕ) {w : ℕ × ℕ} → check_window t a b ≡ ok w → IsWindow t w.0 w.1
unfolding check_window
check_window-IsWindow t a b {w} e = elim (Bool-cases (leb b a)) [
  | inl x ↦ absurd (cc (rw x at e))
  | inr n ↦ elim (Bool-cases (not (leb a t && leb t b))) [
    | inl x ↦ absurd (cc (rw (n, x) at e))
    | inr m ↦ elim (Bool-cases (ltb max_review_window_ms (b - a))) [
      | inl x ↦ absurd (cc (rw (n, m, x) at e))
      | inr k ↦
          let good : IsWindow t a b = ground arith in
          subst (λ (w : ℕ × ℕ). IsWindow t w.0 w.1) (ok-injective (rw (n, m, k) at e)) good
    ]
  ]
]

pub resolve_clip_window-IsWindow :
    (t : ℕ) (duration a b : Option ℕ) {w : ℕ × ℕ}
    → resolve_clip_window t duration a b ≡ ok w
    → IsWindow t w.0 w.1
unfolding resolve_clip_window
resolve_clip_window-IsWindow t duration none none e =
    check_window-IsWindow t (clamp_clip_time (pos (t - 4000)) duration)
      (clamp_clip_time (pos (t + 6000)) duration) e
resolve_clip_window-IsWindow t duration none (some b) e = absurd (cc e)
resolve_clip_window-IsWindow t duration (some a) none e = absurd (cc e)
resolve_clip_window-IsWindow t duration (some a) (some b) e =
    check_window-IsWindow t (clamp_clip_time (pos a) duration) (clamp_clip_time (pos b) duration) e

-- A request that names no window gets one at every time that lies within the video.
pub resolve_clip_window_default :
    (t d : ℕ)
    → 0 < d
    → t ≤ d
    → (w : ℕ × ℕ) × (resolve_clip_window t (some d) none none ≡ ok w) × (w.1 ≤ d)
unfolding resolve_clip_window check_window clamp_clip_time
resolve_clip_window_default t d h k =
    ((t - 4000, if ltb d (t + 6000) then d else t + 6000), ground arith, ground arith)
