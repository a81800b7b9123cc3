-- ===== src/Api/Events.antt =====
-- videos.py: the candidate events of a video and their clip windows, `create_manual_video_event` and
-- `update_video_event_review`. Times are milliseconds; `event_time_ms` is not negative, as the requests
-- demand. The estimated frame of a time, which is computed on floats, and the text of `now` are arguments.
pub mod Window
pub mod Listing
pub mod Pages
pub mod Counts
pub mod Cursor
pub mod Order
pub mod Page
pub mod Bounds
pub mod Clip
use Prim.Native.String.{String}
use mathlib.Core.Option
use nextballup.Prelude.{
  ℕ, ◌+◌, ◌-◌, Bool, true, false, not, ◌&&◌, ◌||◌, Option, none, some, List, [], ◌∷◌, ◌==◌, ltb,
  leb, if◌then◌else◌, is_some, is_none, find_where, update_where, or_else,
}
use nextballup.Prelude.Int.{ℤ, pos, negsuc, ◌+ℤ◌, ◌-ℤ◌, max_zero}
use nextballup.Core.Text.{Text, codes, text_eq}
use nextballup.Core.Enums.{
  VideoStatus, VideoEventType, ReviewStatus, event_type_value, review_value, status_eq,
}
use nextballup.Core.Errors.{AppError, ErrorClass, ErrorCode, AuditAction}
use nextballup.Core.Json.{
  Json, Fields, get_field, set_field, dict_of, num_or_null, int_json, int_of,
}
use nextballup.Db.{Db, User, Video, VideoEvent, write_audit}
use nextballup.Api.Result.{Result, ok, err, app_error, raise_if, ◌>>=◌, ◌>>◌}
use nextballup.Api.Permissions.{require_verified_account, require_team_coach}
use nextballup.Api.Videos.{invalid_state, or_raise, video_or_404, user_audit}
use nextballup.Api.Events.Clip.{
  manual_event_source, duration_ms, both, window_from_event, resolve_clip_window,
}

pub record CreateVideoEventRequest : Type 0 where
  pub event_type : VideoEventType
  pub event_time_ms : ℕ
  pub clip_start_time_ms : Option ℕ
  pub clip_end_time_ms : Option ℕ

-- The video of the request, for a coach of its team.
unfoldable pub reviewed_video : Bool → User → ℕ → Db → Result Video
unfolding require_verified_account video_or_404 require_team_coach
reviewed_video verified_only user video_id db =
    require_verified_account verified_only user >> video_or_404 video_id db >>= λ video.
    require_team_coach user video.team_id db >>= λ _. ok video

abbrev pub past_end : ℕ → Option ℕ → Bool
past_end t none = false
past_end t (some d) = ltb d t

abbrev pub shot_clock_of : ℕ → Db → Bool
unfolding find_where
shot_clock_of game_id db = elim (find_where (λ g. g.id == game_id) db.games) [
  | none ↦ false
  | some game ↦ game.shot_clock_enabled
]

-- `metadata["clip_pre_ms"]` and `metadata["clip_post_ms"]` of a window.
abbrev pub pre_ms : ℕ → ℕ → Json
unfolding ◌-ℤ◌
pre_ms event_time_ms start = int_json (pos event_time_ms -ℤ pos start)

abbrev pub post_ms : ℕ → ℕ → Json
unfolding ◌-ℤ◌
post_ms event_time_ms end_ms = int_json (pos end_ms -ℤ pos event_time_ms)

unfoldable pub manual_event :
    (Video → ℕ → ℕ) → ℕ → Video → CreateVideoEventRequest → ℕ × ℕ → Db → VideoEvent
manual_event frame_of new_id video payload (start, end_ms) db = record {
  id = new_id;
  video_id = video.id;
  team_id = video.team_id;
  event_type = payload.event_type;
  event_time_ms = payload.event_time_ms;
  clip_start_time_ms = some start;
  clip_end_time_ms = some end_ms;
  output_frame = frame_of video payload.event_time_ms;
  shot_clock_enabled = shot_clock_of video.game_id db;
  confidence = none;
  review_status = ReviewStatus.needs_review;
  created_at = db.now;
  event_metadata = some (
      Fields.field "source" (Json.str manual_event_source) (
        Fields.field "not_production_analytics" (Json.flag true) (
          Fields.field "review_copy"
            (Json.str (codes "Coach-created alpha tag. Review before export."))
            (Fields.field "clip_pre_ms" (pre_ms payload.event_time_ms start)
              (Fields.field "clip_post_ms" (post_ms payload.event_time_ms end_ms) Fields.end)))));
}

-- The new row stands first.
unfoldable pub add_event : User → VideoEvent → Db → Db
unfolding write_audit
add_event user row db =
    write_audit
      (user_audit AuditAction.video_event_manual_created user "video_event" row.id row.team_id (
        Fields.field "video_id" (Json.num row.video_id) (
          Fields.field "event_type" (Json.str (event_type_value row.event_type)) (
            Fields.field "event_time_ms" (Json.num row.event_time_ms) (
              Fields.field "clip_start_time_ms" (num_or_null row.clip_start_time_ms) (
                Fields.field "clip_end_time_ms" (num_or_null row.clip_end_time_ms)
                  (Fields.field "not_production_analytics" (Json.flag true) Fields.end)))))))
      (record db { events = row ∷ db.events })

unfoldable pub manual_window : Video → CreateVideoEventRequest → Result (ℕ × ℕ)
unfolding duration_ms resolve_clip_window
manual_window video payload =
    raise_if (not (status_eq video.status VideoStatus.processed)) ErrorClass.conflict_error
      ErrorCode.invalid_video_state
    >> (raise_if (past_end payload.event_time_ms (duration_ms video))
          ErrorClass.validation_failed_error ErrorCode.validation_failed
        >> resolve_clip_window payload.event_time_ms (duration_ms video) payload.clip_start_time_ms
            payload.clip_end_time_ms)

unfoldable pub create_manual_video_event :
    (Video → ℕ → ℕ) → Bool → User → ℕ → CreateVideoEventRequest → ℕ → Db → Result VideoEvent × Db
unfolding reviewed_video manual_window manual_event add_event
create_manual_video_event frame_of verified_only user video_id payload new_id db =
    elim (reviewed_video verified_only user video_id db) [
      | err e ↦ (err e, db)
      | ok video ↦ elim (manual_window video payload) [
        | err e ↦ (err e, db)
        | ok window ↦
            let row = manual_event frame_of new_id video payload window db in
            (ok row, add_event user row db)
      ]
    ]

pub record UpdateVideoEventReviewRequest : Type 0 where
  pub review_status : ReviewStatus
  pub clip_start_time_ms : Option ℕ
  pub clip_end_time_ms : Option ℕ

-- `_COACH_REVIEW_STATUSES`
abbrev pub is_coach_review : ReviewStatus → Bool
is_coach_review ReviewStatus.machine_only = false
is_coach_review _ = true

-- The window of the row after the request: its own, if the request names none.
unfoldable pub requested_window :
    Video → VideoEvent → UpdateVideoEventReviewRequest → Result (Option ℕ × Option ℕ)
unfolding resolve_clip_window duration_ms
requested_window video row payload =
    if is_some payload.clip_start_time_ms || is_some payload.clip_end_time_ms
    then (resolve_clip_window row.event_time_ms (duration_ms video) payload.clip_start_time_ms
          payload.clip_end_time_ms
        >>= λ window. ok (some window.0, some window.1))
    else ok (row.clip_start_time_ms, row.clip_end_time_ms)

-- The metadata of a reviewed row; `reviewed_at` is `now.isoformat()`.
unfoldable pub reviewed_metadata : Text → Fields → ℕ → Option (ℕ × ℕ) → Fields
unfolding set_field
reviewed_metadata reviewed_at metadata event_time_ms window =
    let marked =
      set_field "review_source" (Json.str (codes "coach_review"))
        (set_field "reviewed_at" (Json.str reviewed_at) metadata) in
    elim window [
      | none ↦ marked
      | some (start, end_ms) ↦
          set_field "clip_post_ms" (post_ms event_time_ms end_ms)
            (set_field "clip_pre_ms" (pre_ms event_time_ms start) marked)
    ]

unfoldable pub reviewed_values : Text → ReviewStatus → Option ℕ × Option ℕ → VideoEvent → VideoEvent
unfolding reviewed_metadata
reviewed_values reviewed_at status (start, end_ms) row = record row {
  clip_start_time_ms = start;
  clip_end_time_ms = end_ms;
  review_status = status;
  event_metadata = some (
      reviewed_metadata reviewed_at (dict_of row.event_metadata) row.event_time_ms
        (both start end_ms));
}

unfoldable pub save_review :
    (ℕ → Text) → User → Video → VideoEvent → ReviewStatus → Option ℕ × Option ℕ → Db → Db
unfolding update_where reviewed_values write_audit window_from_event
save_review isoformat user video row status window db =
    let previous = window_from_event row video in
    write_audit
      (user_audit AuditAction.video_event_reviewed user "video_event" row.id video.team_id (
        Fields.field "video_id" (Json.num video.id) (
          Fields.field "previous_review_status" (Json.str (review_value row.review_status)) (
            Fields.field "review_status" (Json.str (review_value status)) (
              Fields.field "event_type" (Json.str (event_type_value row.event_type)) (
                Fields.field "previous_clip_start_time_ms" (Json.num previous.0) (
                  Fields.field "previous_clip_end_time_ms" (Json.num previous.1) (
                    Fields.field "clip_start_time_ms" (num_or_null window.0)
                      (Fields.field "clip_end_time_ms" (num_or_null window.1) Fields.end)))))))))
      (record db {
        events =
            update_where (λ r. r.id == row.id) (reviewed_values (isoformat db.now) status window)
              db.events;
      })

unfoldable pub event_of_video : ℕ → Video → Db → Result VideoEvent
unfolding find_where
event_of_video event_id video db =
    or_raise (find_where (λ r. r.id == event_id && r.video_id == video.id) db.events)
      ErrorClass.not_found_error ErrorCode.not_found

-- The video, the row and the window that a review is about.
unfoldable pub review_of :
    Bool
    → User
    → ℕ
    → ℕ
    → UpdateVideoEventReviewRequest
    → Db
    → Result (Video × VideoEvent × (Option ℕ × Option ℕ))
unfolding reviewed_video event_of_video requested_window
review_of verified_only user video_id event_id payload db =
    reviewed_video verified_only user video_id db >>= λ video.
    raise_if (not (is_coach_review payload.review_status)) ErrorClass.validation_failed_error
      ErrorCode.validation_failed
    >> (event_of_video event_id video db >>= λ row.
        requested_window video row payload >>= λ window. ok (video, row, window))

unfoldable pub update_video_event_review :
    (ℕ → Text) → Bool → User → ℕ → ℕ → UpdateVideoEventReviewRequest → Db → Result VideoEvent × Db
unfolding review_of reviewed_values save_review
update_video_event_review isoformat verified_only user video_id event_id payload db =
    elim (review_of verified_only user video_id event_id payload db) [
      | err e ↦ (err e, db)
      | ok (video, row, window) ↦ (
        ok (reviewed_values (isoformat db.now) payload.review_status window row),
        save_review isoformat user video row payload.review_status window db,
      )
    ]
