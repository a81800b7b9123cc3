-- ===== src/Api/Events/Window.antt =====
-- videos.py: the clip windows of the events that coaches create and review.
use nextballup.Prelude.{
  ℕ, ◌≡◌, subst, Bool, not, ◌&&◌, ◌||◌, Option, some, ◌==◌, inl, inr, Bool-cases, is_some,
  find_where, find_where-All, UniqueBy, All-update_found, All,
}
use nextballup.Core.Text.{Text}
use nextballup.Core.Enums.{VideoStatus, status_eq}
use nextballup.Core.Errors.{ErrorClass, ErrorCode}
use nextballup.Db.{Db, User, Video, VideoEvent, write_audit}
use nextballup.Api.Result.{ok, Result-cases, bind_ok, ok-injective}
use nextballup.Api.Videos.{or_raise-eq-ok}
use nextballup.Api.Events.{
  past_end, CreateVideoEventRequest, UpdateVideoEventReviewRequest, manual_event, manual_window,
  add_event, reviewed_video, create_manual_video_event, requested_window, reviewed_values,
  save_review, review_of, event_of_video, update_video_event_review, is_coach_review,
}
use nextballup.Api.Events.Clip.{duration_ms, resolve_clip_window}
use nextballup.Api.Events.Bounds.{HasWindow, EventOk, resolve_clip_window-IsWindow}

manual_event-EventOk :
    (frame_of : Video → ℕ → ℕ) (id : ℕ) (video : Video) (payload : CreateVideoEventRequest)
    (w : ℕ × ℕ) (db : Db)
    → manual_window video payload ≡ ok w
    → EventOk (manual_event frame_of id video payload w db)
unfolding manual_window manual_event
manual_event-EventOk frame_of id video payload w db e =
    elim (Bool-cases (not (status_eq video.status VideoStatus.processed))) [
      | inl t ↦ absurd (cc (rw t at e))
      | inr n ↦ elim (Bool-cases (past_end payload.event_time_ms (duration_ms video))) [
        | inl t ↦ absurd (cc (rw (n, t) at e))
        | inr m ↦
            resolve_clip_window-IsWindow payload.event_time_ms (duration_ms video)
              payload.clip_start_time_ms payload.clip_end_time_ms (rw (n, m) at e)
      ]
    ]

-- A manual event gets a window that is good, and the other rows stay as they are: all rows keep good windows.
create_manual_video_event-EventOk :
    (frame_of : Video → ℕ → ℕ) (verified_only : Bool) (user : User) (video_id : ℕ)
    (payload : CreateVideoEventRequest) (new_id : ℕ) (db : Db)
    → All EventOk db.events
    → All EventOk
        (create_manual_video_event frame_of verified_only user video_id payload new_id db).1.events
unfolding create_manual_video_event add_event write_audit
create_manual_video_event-EventOk frame_of verified_only user video_id payload new_id db h =
    elim (Result-cases (reviewed_video verified_only user video_id db)) [
      | inr (e, x) ↦ rw (x, create_manual_video_event) h
      | inl (video, v) ↦ elim (Result-cases (manual_window video payload)) [
        | inr (e, x) ↦ rw (v, x, create_manual_video_event) h
        | inl (w, x) ↦
            rw (v, x, create_manual_video_event)
              (manual_event-EventOk frame_of new_id video payload w db x, h)
      ]
    ]

requested_window-HasWindow :
    (video : Video) (row : VideoEvent) (payload : UpdateVideoEventReviewRequest)
    {w : Option ℕ × Option ℕ}
    → EventOk row
    → requested_window video row payload ≡ ok w
    → HasWindow row.event_time_ms w.0 w.1
unfolding requested_window
requested_window-HasWindow video row payload {w} h e =
    elim (Bool-cases (is_some payload.clip_start_time_ms || is_some payload.clip_end_time_ms)) [
      | inr n ↦
          subst (λ (w : Option ℕ × Option ℕ). HasWindow row.event_time_ms w.0 w.1)
            (ok-injective (rw n at e)) h
      | inl t ↦
          let found =
            bind_ok
              (resolve_clip_window row.event_time_ms (duration_ms video) payload.clip_start_time_ms
                payload.clip_end_time_ms)
              (λ window. ok (some window.0, some window.1)) (rw t at e) in
          subst (λ (w : Option ℕ × Option ℕ). HasWindow row.event_time_ms w.0 w.1)
            (ok-injective found.1.1)
            (resolve_clip_window-IsWindow row.event_time_ms (duration_ms video)
              payload.clip_start_time_ms payload.clip_end_time_ms found.1.0)
    ]

-- What a review that is accepted found.
record Reviewed (video_id event_id : ℕ) (db : Db) (row : VideoEvent) (window : Option ℕ × Option ℕ)
    : Type 0 where
  video : ℕ
  found : find_where (λ r. r.id == event_id && r.video_id == video) db.events ≡ some row
  good : EventOk row → HasWindow row.event_time_ms window.0 window.1

review_of-Reviewed :
    (verified_only : Bool) (user : User) (video_id event_id : ℕ)
    (payload : UpdateVideoEventReviewRequest) (db : Db) {video : Video} {row : VideoEvent}
    {window : Option ℕ × Option ℕ}
    → review_of verified_only user video_id event_id payload db ≡ ok (video, row, window)
    → Reviewed video_id event_id db row window
unfolding review_of event_of_video
review_of-Reviewed verified_only user video_id event_id payload db {video} {row} {window} e =
    elim (Result-cases (reviewed_video verified_only user video_id db)) [
      | inr (x, n) ↦ absurd (cc (rw n at e))
      | inl (v, a) ↦ elim (Bool-cases (not (is_coach_review payload.review_status))) [
        | inl t ↦ absurd (cc (rw (a, t) at e))
        | inr n ↦ elim (Result-cases (event_of_video event_id v db)) [
          | inr (x, m) ↦ absurd (cc (rw (a, n, m) at e))
          | inl (r, f) ↦ elim (Result-cases (requested_window v r payload)) [
            | inr (x, m) ↦ absurd (cc (rw (a, n, f, m) at e))
            | inl (w, g) ↦
                subst
                  (λ (t : Video × VideoEvent × (Option ℕ × Option ℕ)).
                    Reviewed video_id event_id db t.1 t.2)
                  (ok-injective (rw (a, n, f, g) at e))
                  (record {
                    video = v.id;
                    found =
                        or_raise-eq-ok
                          (find_where (λ r. r.id == event_id && r.video_id == v.id) db.events)
                          ErrorClass.not_found_error ErrorCode.not_found f;
                    good = λ h. requested_window-HasWindow v r payload h g;
                  })
          ]
        ]
      ]
    ]

update_video_event_review-EventOk :
    (isoformat : ℕ → Text) (verified_only : Bool) (user : User) (video_id event_id : ℕ)
    (payload : UpdateVideoEventReviewRequest) (db : Db)
    → UniqueBy (λ r. r.id) db.events
    → All EventOk db.events
    → All EventOk
        (update_video_event_review isoformat verified_only user video_id event_id payload
          db).1.events
unfolding update_video_event_review save_review write_audit reviewed_values
update_video_event_review-EventOk isoformat verified_only user video_id event_id payload db u h =
    elim (Result-cases (review_of verified_only user video_id event_id payload db)) [
      | inr (e, x) ↦ rw (x, update_video_event_review) h
      | inl ((video, row, window), x) ↦
          let r = review_of-Reviewed verified_only user video_id event_id payload db x in
          let own =
            (find_where-All EventOk (λ s. s.id == event_id && s.video_id == r.video) db.events h
              r.found).1 in
          rw (x, update_video_event_review)
            (All-update_found EventOk (λ s. s.id) (λ s. s.id == event_id && s.video_id == r.video)
              (reviewed_values (isoformat db.now) payload.review_status window) db.events u r.found
              (r.good own) h)
    ]

-- Every event with a window of its own keeps one that is not empty, contains the event and is at most a
-- minute long, and no event gets half a window: whatever a coach creates or reviews, accepted or refused,
-- given the primary key of the table.
pub event_requests-EventOk :
    (frame_of : Video → ℕ → ℕ) (isoformat : ℕ → Text) (verified_only : Bool) (user : User)
    (video_id event_id new_id : ℕ) (create : CreateVideoEventRequest)
    (review : UpdateVideoEventReviewRequest) (db : Db)
    → UniqueBy (λ r. r.id) db.events
    → All EventOk db.events
    → All EventOk
        (create_manual_video_event frame_of verified_only user video_id create new_id db).1.events
      × All EventOk
          (update_video_event_review isoformat verified_only user video_id event_id review
            db).1.events
event_requests-EventOk frame_of isoformat verified_only user video_id event_id new_id create review
      db u h =
    (
      create_manual_video_event-EventOk frame_of verified_only user video_id create new_id db h,
      update_video_event_review-EventOk isoformat verified_only user video_id event_id review db u
          h,
    )
