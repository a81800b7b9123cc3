-- ===== src/Api/Events/Clip.antt =====
-- videos.py: the clip window of an event, `_window_from_event` and `_resolve_clip_window`.
use mathlib.Core.Option
use nextballup.Prelude.{
  ℕ, ◌+◌, ◌-◌, not, ◌&&◌, Option, none, some, ◌==◌, ltb, leb, if◌then◌else◌, or_else,
}
use nextballup.Prelude.Int.{ℤ, pos, ◌+ℤ◌, ◌-ℤ◌, max_zero}
use nextballup.Core.Text.{Text, codes}
use nextballup.Core.Errors.{AppError, ErrorClass, ErrorCode}
use nextballup.Core.Json.{Fields, get_field, dict_of, int_of}
use nextballup.Db.{Video, VideoEvent}
use nextballup.Api.Result.{Result, ok, err, app_error}

abbrev pub default_clip_pre_ms : ℕ
default_clip_pre_ms = 4000

abbrev pub default_clip_post_ms : ℕ
default_clip_post_ms = 6000

abbrev pub max_review_window_ms : ℕ
max_review_window_ms = 60000

abbrev pub manual_event_source : Text
manual_event_source = codes "coach_manual_alpha_tag"

-- `int(video.duration_seconds * 1000) if video.duration_seconds else None`, on thousandths.
abbrev nonzero : ℕ → Option ℕ
nonzero n = if n == 0 then none else some n

unfoldable pub duration_ms : Video → Option ℕ
duration_ms video = Option.bind video.duration_seconds nonzero

abbrev min_of : ℕ → Option ℕ → ℕ
min_of a none = a
min_of a (some b) = if ltb b a then b else a

unfoldable pub clamp_clip_time : ℤ → Option ℕ → ℕ
clamp_clip_time value duration = min_of (max_zero value) duration

-- `_window_from_event`, where the row has no window of its own.
unfoldable pub default_window : VideoEvent → Fields → Option ℕ → ℕ × ℕ
unfolding clamp_clip_time get_field ◌-ℤ◌ ◌+ℤ◌
default_window row metadata duration =
    let pre = or_else (int_of (get_field "clip_pre_ms" metadata)) (pos default_clip_pre_ms) in
    let post = or_else (int_of (get_field "clip_post_ms" metadata)) (pos default_clip_post_ms) in
    let start = clamp_clip_time (pos row.event_time_ms -ℤ pre) duration in
    let end_ms = clamp_clip_time (pos row.event_time_ms +ℤ post) duration in
    (start, if leb end_ms start then clamp_clip_time (pos (start + 1000)) duration else end_ms)

-- Both ends, if both are given.
abbrev pub both {ℓ} : {A : Type ℓ} → Option A → Option A → Option (A × A)
both (some a) (some b) = some (a, b)
both _ _ = none

unfoldable pub window_from_event : VideoEvent → Video → ℕ × ℕ
unfolding default_window clamp_clip_time duration_ms get_field
window_from_event row video =
    let duration = duration_ms video in
    let metadata = dict_of row.event_metadata in
    elim (both row.clip_start_time_ms row.clip_end_time_ms) [
      | some (a, b) ↦ (clamp_clip_time (pos a) duration, clamp_clip_time (pos b) duration)
      | none ↦
          elim (both (int_of (get_field "clip_start_time_ms" metadata))
            (int_of (get_field "clip_end_time_ms" metadata))) [
              | some (a, b) ↦ (clamp_clip_time a duration, clamp_clip_time b duration)
              | none ↦ default_window row metadata duration
            ]
    ]

abbrev invalid_window : AppError
invalid_window = app_error ErrorClass.validation_failed_error ErrorCode.validation_failed

-- The checks on a window that is clamped.
unfoldable pub check_window : ℕ → ℕ → ℕ → Result (ℕ × ℕ)
check_window event_time_ms start end_ms =
    if leb end_ms start
    then err invalid_window
    else if not (leb start event_time_ms && leb event_time_ms end_ms)
    then err invalid_window
    else if ltb max_review_window_ms (end_ms - start)
    then err invalid_window
    else ok (start, end_ms)

unfoldable pub resolve_clip_window : ℕ → Option ℕ → Option ℕ → Option ℕ → Result (ℕ × ℕ)
unfolding check_window clamp_clip_time
resolve_clip_window event_time_ms duration none (some _) = err invalid_window
resolve_clip_window event_time_ms duration (some _) none = err invalid_window
resolve_clip_window event_time_ms duration none none =
    check_window event_time_ms
      (clamp_clip_time (pos (event_time_ms - default_clip_pre_ms)) duration)
      (clamp_clip_time (pos (event_time_ms + default_clip_post_ms)) duration)
resolve_clip_window event_time_ms duration (some a) (some b) =
    check_window event_time_ms (clamp_clip_time (pos a) duration) (clamp_clip_time (pos b) duration)
