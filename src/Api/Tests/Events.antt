-- ===== src/Api/Tests/Events.antt =====
-- The theorems on the events of a video, at small tables.
use mathlib.Core.List.{Perm}
use mathlib.Core.Option
use nextballup.Prelude.{
  ℕ, ◌+◌, ◌-◌, ◌*◌, ◌++◌, ◌==◌, if◌then◌else◌, length, ◌≡◌, refl, ap, true, false, Option, none,
  some, [], ◌∷◌, arith, All, any_where,
}
use nextballup.Core.Text.{Text, is_empty, decimal, value_from, value_from-decimal}
use nextballup.Core.Enums.{VideoStatus, VideoEventType, ReviewStatus}
use nextballup.Db.{Db, VideoEvent}
use nextballup.Worker.Tests.{film, store}
use nextballup.Api.Events.{
  CreateVideoEventRequest, UpdateVideoEventReviewRequest, create_manual_video_event,
  update_video_event_review,
}
use nextballup.Api.Events.Window.{event_requests-EventOk}
use nextballup.Api.Events.Bounds.{EventOk}
use nextballup.Api.Events.Listing.{
  CursorCodec, equals_signs, order_events, encode_event_cursor, decode_event_cursor,
}
use nextballup.Api.Events.Pages.{follow, follow_all}
use nextballup.Api.Events.Order.{IsOrdered}
use nextballup.Api.Events.Cursor.{CodecLaws, decode-encode_event_cursor}
use nextballup.Api.Tests.{coach, coaching}

abbrev shot : VideoEvent
shot = record {
  id = 1;
  video_id = 1;
  team_id = 1;
  event_type = VideoEventType.shot_made;
  event_time_ms = 9000;
  clip_start_time_ms = some 5000;
  clip_end_time_ms = some 15000;
  output_frame = 270;
  shot_clock_enabled = false;
  confidence = some 900;
  review_status = ReviewStatus.needs_review;
  created_at = 60;
  event_metadata = none;
}

abbrev rebound : VideoEvent
rebound = record shot {
  id = 2;
  event_type = VideoEventType.rebound;
  event_time_ms = 4000;
  clip_start_time_ms = none;
  clip_end_time_ms = none;
}

abbrev reviewed : Db
reviewed = record store {
  videos = record film { status = VideoStatus.processed; duration_seconds = some 60000 } ∷ [];
  memberships = coaching ∷ [];
  events = shot ∷ rebound ∷ [];
}

abbrev tag : CreateVideoEventRequest
tag = record {
  event_type = VideoEventType.pass;
  event_time_ms = 59000;
  clip_start_time_ms = none;
  clip_end_time_ms = none;
}

abbrev approval : UpdateVideoEventReviewRequest
approval = record {
  review_status = ReviewStatus.approved;
  clip_start_time_ms = some 3000;
  clip_end_time_ms = some 8000;
}

event_requests-EventOk_example :
    All EventOk (create_manual_video_event (λ v t. t) true coach 1 tag 3 reviewed).1.events
    × All EventOk (update_video_event_review decimal true coach 1 2 approval reviewed).1.events
unfolding any_where
event_requests-EventOk_example =
    event_requests-EventOk (λ v t. t) decimal true coach 1 2 3 tag approval reviewed
      (refl, (refl, tt)) ((omega arith, omega arith, omega arith, omega arith), (tt, tt))

abbrev parse_single : Text → Option ℕ
parse_single (c ∷ []) = some c
parse_single _ = none

-- base64 as the text itself, and a UUID as one character.
-- Each character stands in a group of its own, and the last group is "AA==".
abbrev in_groups : Text → Text
in_groups [] = 65 ∷ 65 ∷ []
in_groups (c ∷ s) = (c + 62) ∷ 65 ∷ 65 ∷ 65 ∷ in_groups s

in_two : Text → Text
in_two s = s ++ equals_signs 2

from_groups : Text → Option Text
from_groups (a ∷ b ∷ c ∷ d ∷ s) =
    let rest = from_groups s in if c == b'=' then some [] else Option.map (λ t. (a - 62) ∷ t) rest
from_groups _ = none

abbrev codec : CursorCodec
codec = record {
  b64encode = λ t. in_two (in_groups t);
  b64decode = from_groups;
  hex = λ id. id ∷ [];
  parse_hex = parse_single;
  parse_int = λ t. some (value_from 0 t);
}

from_groups-in_groups : (t : Text) → from_groups (in_two (in_groups t)) ≡ some t
unfolding in_two from_groups equals_signs
from_groups-in_groups [] = refl
from_groups-in_groups (c ∷ t) =
    let back : c + 62 - 62 ≡ c = omega arith in rw (from_groups-in_groups t, back) refl

in_groups-plain : (t : Text) → All (λ c. (c == b'=') ≡ false) (in_groups t)
in_groups-plain [] = (refl, (refl, tt))
in_groups-plain (c ∷ t) =
    let other : (c + 62 == b'=') ≡ false = ground arith in
    (other, (refl, (refl, (refl, in_groups-plain t))))

length-in_groups : (t : Text) → length (in_groups t) + 2 ≡ (length t + 1) * 4
length-in_groups [] = refl
length-in_groups (c ∷ t) = omega (arith, length-in_groups t)

in_two-full : (t : Text) → is_empty (in_two (in_groups t)) ≡ false
unfolding in_two
in_two-full [] = refl
in_two-full (c ∷ t) = refl

codec_laws : CodecLaws codec
unfolding in_two
codec_laws = record {
  b64 = from_groups-in_groups;
  b64_form = λ t. record {
    body = in_groups t;
    padding = 2;
    groups = length t + 1;
    whole = refl;
    plain = in_groups-plain t;
    short = omega arith;
    even = length-in_groups t;
  };
  b64_empty = λ t h. in_two-full t;
  hexed = λ id. refl;
  printed = λ n. ap some (value_from-decimal n);
}

decode-encode_event_cursor_example :
    decode_event_cursor codec (encode_event_cursor codec (9000, 1)) ≡ some (9000, 1)
decode-encode_event_cursor_example = decode-encode_event_cursor codec codec_laws (9000, 1)

follow_all_example :
    (follow codec 1 (shot ∷ rebound ∷ []) 3 none ≡ some (order_events (shot ∷ rebound ∷ [])))
    × IsOrdered (order_events (shot ∷ rebound ∷ []))
    × Perm (order_events (shot ∷ rebound ∷ [])) (shot ∷ rebound ∷ [])
unfolding any_where
follow_all_example =
    follow_all codec codec_laws 1 (shot ∷ rebound ∷ []) (omega arith) (refl, (refl, tt))
