-- ===== src/Clips.antt =====
-- packages/clip_engine/src/nextballup_clips/proposals.py: the review queue of clip windows. A text of an
-- event's id is an argument. A confidence is a number of thousandths, so a duration is a number of
-- milliseconds; a score is kept in units of 0.0001, to which the source rounds it. An event's time is not
-- negative.
pub mod Queue
mod Tests
pub mod Words
pub mod Window
use Prim.Native.String.{String}
use mathlib.Core.Option
use nextballup.Prelude.{
  ℕ, zero, suc, ◌+◌, ◌-◌, ◌*◌, ◌/◌, ◌%◌, Bool, true, false, not, ◌&&◌, ◌||◌, Option, none, some,
  List, [], ◌∷◌, ◌++◌, ◌==◌, ltb, leb, if◌then◌else◌, find_where, filter_where, or_else, take, map,
}
use nextballup.Prelude.Sort.{sort_by}
use nextballup.Prelude.Int.{ℤ, pos, max_zero}
use nextballup.Core.Text.{Text, codes, text_eq, lower, strip, decimal, is_empty}
use nextballup.Core.Json.{Json, Fields, get_field, dict_of, int_of}
use nextballup.Clips.Words.{humanize_event_type, format_time}

pub record ClipEvent : Type 0 where
  pub id : ℕ
  pub event_type : Text
  pub event_time_ms : ℕ
  pub confidence : Option ℕ
  pub review_status : Text
  pub created_at : Option ℕ
  pub metadata : Option Fields

pub record ClipProposal : Type 0 where
  pub id : Text
  pub source_event_id : ℕ
  pub event_type : Text
  pub label : Text
  pub reason : Text
  pub start_time_ms : ℕ
  pub end_time_ms : ℕ
  pub rank_score : ℕ
  pub confidence : Option ℕ
  pub review_status : Text
  pub created_at : Option ℕ

-- `d.get(key)` of a dictionary by texts.
unfoldable pub get_text {ℓ} : {A : Type ℓ} → Text → List (Text × A) → Option A
unfolding find_where text_eq
get_text key d = Option.map (λ e. e.1) (find_where (λ e. text_eq e.0 key) d)

abbrev windows_ms : List (Text × (ℕ × ℕ))
windows_ms =
    (codes "shot_attempt", (4000, 6000))
    ∷ (codes "shot_made", (4000, 7000))
    ∷ (codes "rebound", (3000, 5000))
    ∷ (codes "pass", (2000, 4000))
    ∷ []

abbrev labels : List (Text × Text)
labels =
    (codes "shot_attempt", codes "Shot attempt")
    ∷ (codes "shot_made", codes "Made shot")
    ∷ (codes "rebound", codes "Rebound")
    ∷ (codes "pass", codes "Pass")
    ∷ []

-- `_EVENT_WEIGHTS` times 0.4 and `_REVIEW_BONUS`, in units of 0.00001.
abbrev event_weights : List (Text × ℕ)
event_weights =
    (codes "shot_made", 39200)
    ∷ (codes "shot_attempt", 36800)
    ∷ (codes "rebound", 28800)
    ∷ (codes "pass", 16800)
    ∷ []

abbrev review_bonus : List (Text × ℕ)
review_bonus = (codes "needs_review", 4000) ∷ (codes "machine_only", 2000) ∷ []

unfoldable pub min_nat : ℕ → ℕ → ℕ
min_nat a b = if ltb b a then b else a

abbrev pub max_nat : ℕ → ℕ → ℕ
max_nat a b = if ltb a b then b else a

-- Half of a hundred-thousandth never meets the rounding, since all terms are even.
unfoldable pub rank_score : ClipEvent → ℕ
unfolding get_text min_nat
rank_score event =
    let confidence = min_nat 1000 (or_else event.confidence 0) in
    let weight = or_else (get_text event.event_type event_weights) 14000 in
    let bonus = or_else (get_text event.review_status review_bonus) 0 in
    (min_nat 100000 (weight + confidence * 56 + bonus) + 5) / 10

abbrev pub in_review_queue : Bool → ClipEvent → Bool
unfolding text_eq
in_review_queue include_rejected event =
    text_eq event.review_status (codes "needs_review")
    || text_eq event.review_status (codes "machine_only")
    || (include_rejected && text_eq event.review_status (codes "rejected"))

-- `_duration_ms`, of a duration in millionths of a second.
abbrev pub duration_of : Option ℕ → Option ℕ
duration_of none = none
duration_of (some d) = if d == 0 then none else some (d / 1000)

unfoldable pub clip_center_ms : ℕ → Option ℕ → ℕ
unfolding min_nat
clip_center_ms event_time_ms none = event_time_ms
clip_center_ms event_time_ms (some d) = min_nat event_time_ms d

-- A window of the metadata lies between one second and fifteen.
unfoldable pub window_override : Option Json → ℕ → ℕ
unfolding min_nat
window_override value default_ms = elim (int_of value) [
  | none ↦ default_ms
  | some n ↦ max_nat 1000 (min_nat 15000 (max_zero n))
]

unfoldable pub window_for_event : ClipEvent → ℕ × ℕ
unfolding get_text window_override get_field
window_for_event event =
    let defaults = or_else (get_text event.event_type windows_ms) (3000, 5000) in
    let metadata = dict_of event.metadata in
    (
      window_override (get_field "clip_pre_ms" metadata) defaults.0,
      window_override (get_field "clip_post_ms" metadata) defaults.1,
    )

unfoldable pub reason_of : Text → ClipEvent → Text
unfolding format_time lower
reason_of label event =
    codes "Alpha "
    ++ (lower label
        ++ (codes " candidate at "
            ++ (format_time event.event_time_ms ++ codes ". Coach review required.")))

-- The window of a clip, moved to the end of the video where it would be empty.
unfoldable pub clip_window : ClipEvent → Option ℕ → ℕ × ℕ
unfolding clip_center_ms window_for_event min_nat
clip_window event duration =
    let center_ms = clip_center_ms event.event_time_ms duration in
    let window = window_for_event event in
    let start_ms = center_ms - window.0 in
    elim duration [
      | none ↦ (start_ms, center_ms + window.1)
      | some d ↦
          let end_ms = min_nat d (center_ms + window.1) in
          if leb end_ms start_ms then (d - 1000, d) else (start_ms, end_ms)
    ]

unfoldable pub proposal_of : (ℕ → Text) → ClipEvent → ℕ × ℕ → ClipProposal
unfolding get_text humanize_event_type reason_of rank_score
proposal_of uuid_text event window =
    let label = or_else (get_text event.event_type labels) (humanize_event_type event.event_type) in
    record {
      id = codes "event:" ++ uuid_text event.id;
      source_event_id = event.id;
      event_type = event.event_type;
      label = label;
      reason = reason_of label event;
      start_time_ms = window.0;
      end_time_ms = window.1;
      rank_score = rank_score event;
      confidence = event.confidence;
      review_status = event.review_status;
      created_at = event.created_at;
    }

-- The loop over the events; one with an empty window is left out.
unfoldable pub propose : (ℕ → Text) → Option ℕ → Bool → List ClipEvent → List ClipProposal
unfolding clip_window proposal_of
propose uuid_text duration include_rejected [] = []
propose uuid_text duration include_rejected (event ∷ events) =
    let rest = propose uuid_text duration include_rejected events in
    let window = clip_window event duration in
    if in_review_queue include_rejected event
    then if leb window.1 window.0 then rest else proposal_of uuid_text event window ∷ rest
    else rest

-- The order of the keys (-rank_score, start_time_ms, source_event_id).
abbrev pub ranks_before : ClipProposal → ClipProposal → Bool
ranks_before p q =
    if ltb q.rank_score p.rank_score
    then true
    else if ltb p.rank_score q.rank_score
    then false
    else if ltb p.start_time_ms q.start_time_ms
    then true
    else if ltb q.start_time_ms p.start_time_ms
    then false
    else leb p.source_event_id q.source_event_id

-- A limit of 0 or less gives no proposals.
unfoldable pub build_clip_proposals :
    (ℕ → Text) → List ClipEvent → Option ℕ → ℕ → Bool → List ClipProposal
unfolding propose sort_by
build_clip_proposals uuid_text events duration_seconds limit include_rejected = take limit (
    sort_by ranks_before (propose uuid_text (duration_of duration_seconds) include_rejected events))
