-- ===== src/Api/Events/Listing.antt =====
-- videos.py: `list_video_events`, its cursor and its pages. base64 with its padding, the parser of a natural
-- number and the hex form of a UUID are the argument `CursorCodec`. UUIDs are compared as numbers.
use mathlib.Core.Option
use nextballup.Prelude.{
  ℕ, zero, suc, ◌%◌, ◌+◌, ◌-◌, Bool, true, false, not, ◌&&◌, ◌||◌, Option, none, some, List, [],
  ◌∷◌, ◌++◌, ◌==◌, ltb, if◌then◌else◌, filter_where, length, take, any_where,
}
use nextballup.Core.Text.{Text, decimal, text_eq, is_empty}
use nextballup.Core.Enums.{VideoEventType, ReviewStatus, event_type_eq, review_eq}
use nextballup.Core.Errors.{ErrorClass, ErrorCode}
use nextballup.Core.Json.{Json, get_field, dict_of}
use nextballup.Db.{Db, User, VideoEvent}
use nextballup.Api.Result.{Result, ok, ◌>>=◌}
use nextballup.Api.Permissions.{require_team_coach}
use nextballup.Api.Videos.{or_raise, video_or_404}
use nextballup.Api.Events.Clip.{manual_event_source}

-- A place in the order of the events: the time and the id.
abbrev pub Position : Type 0
Position = ℕ × ℕ

abbrev pub position_of : VideoEvent → Position
position_of row = (row.event_time_ms, row.id)

-- `(time > cur_time) | ((time == cur_time) & (id > cur_id))`
abbrev pub is_after : Position → VideoEvent → Bool
is_after (time, id) row = ltb time row.event_time_ms || (row.event_time_ms == time && ltb id row.id)

-- ORDER BY event_time_ms, id
unfoldable pub insert_event : VideoEvent → List VideoEvent → List VideoEvent
insert_event row [] = row ∷ []
insert_event row (x ∷ xs) =
    if is_after (position_of row) x then row ∷ x ∷ xs else x ∷ insert_event row xs

unfoldable pub order_events : List VideoEvent → List VideoEvent
unfolding insert_event
order_events [] = []
order_events (x ∷ xs) = insert_event x (order_events xs)

pub data SourceFilter : Type 0 where
  manual alpha_model all : SourceFilter

-- `VideoEvent.event_metadata["source"].astext == _MANUAL_EVENT_SOURCE`
unfoldable pub is_manual : VideoEvent → Bool
unfolding get_field text_eq
is_manual row = elim (get_field "source" (dict_of row.event_metadata)) [
  | some (Json.str t) ↦ text_eq t manual_event_source
  | _ ↦ false
]

-- An empty list of choices is no filter.
abbrev pub review_in : ReviewStatus → List ReviewStatus → Bool
review_in s [] = true
review_in s (t ∷ ts) = any_where (λ u. review_eq s u) (t ∷ ts)

abbrev pub type_in : VideoEventType → List VideoEventType → Bool
type_in s [] = true
type_in s (t ∷ ts) = any_where (λ u. event_type_eq s u) (t ∷ ts)

abbrev pub source_in : VideoEvent → SourceFilter → Bool
unfolding is_manual
source_in row SourceFilter.manual = is_manual row
source_in row SourceFilter.alpha_model = not (is_manual row)
source_in row SourceFilter.all = true

pub record EventFilter : Type 0 where
  pub review_status : List ReviewStatus
  pub event_type : List VideoEventType
  pub source : SourceFilter

unfoldable pub matches_filter : ℕ → EventFilter → VideoEvent → Bool
unfolding any_where is_manual
matches_filter video_id filter row =
    row.video_id == video_id
    && review_in row.review_status filter.review_status
    && type_in row.event_type filter.event_type
    && source_in row filter.source

pub record CursorCodec : Type 0 where
  pub b64encode : Text → Text
  pub b64decode : Text → Option Text
  pub hex : ℕ → Text
  pub parse_hex : Text → Option ℕ
  pub parse_int : Text → Option ℕ

-- `.rstrip("=")`
unfoldable pub strip_padding : Text → Text
strip_padding [] = []
strip_padding (c ∷ s) =
    let rest = strip_padding s in if is_empty rest && c == b'=' then [] else c ∷ rest

-- `"=" * n`
unfoldable pub equals_signs : ℕ → Text
equals_signs zero = []
equals_signs (suc n) = b'=' ∷ equals_signs n

-- `-n % 4` in Python, which is not negative.
abbrev pub missing_mod_four : ℕ → ℕ
missing_mod_four n = (4 - n % 4) % 4

unfoldable pub encode_event_cursor : CursorCodec → Position → Text
unfolding decimal strip_padding
encode_event_cursor codec (time, id) =
    strip_padding (codec.b64encode (decimal time ++ (b':' ∷ codec.hex id)))

-- `raw.split(":", 1)`, None where there is no colon.
unfoldable pub split_colon : Text → Option (Text × Text)
split_colon [] = none
split_colon (c ∷ s) =
    if c == b':'
    then some ([], s)
    else Option.map (λ (p : Text × Text). (c ∷ p.0, p.1)) (split_colon s)

-- None ends in a ValidationFailedError.
unfoldable pub decode_event_cursor : CursorCodec → Text → Option Position
unfolding split_colon equals_signs
decode_event_cursor codec cursor =
    elim (codec.b64decode (cursor ++ equals_signs (missing_mod_four (length cursor)))) [
      | none ↦ none
      | some raw ↦ elim (split_colon raw) [
        | none ↦ none
        | some (time_part, id_part) ↦ elim (codec.parse_int time_part) [
          | none ↦ none
          | some time ↦ Option.map (λ (id : ℕ). (time, id)) (codec.parse_hex id_part)
        ]
      ]
    ]

pub record EventPage : Type 0 where
  pub rows : List VideoEvent
  pub total : ℕ
  pub next_cursor : Option Text

abbrev pub starts_after : Option Position → VideoEvent → Bool
starts_after none row = true
starts_after (some position) row = is_after position row

abbrev pub last_of {ℓ} : {A : Type ℓ} → List A → Option A
last_of [] = none
last_of (x ∷ []) = some x
last_of (x ∷ y ∷ xs) = last_of (y ∷ xs)

-- The rows of a page, and whether there are more.
unfoldable pub page_rows : ℕ → Option Position → List VideoEvent → List VideoEvent × Bool
page_rows limit position ordered =
    let rows = take (limit + 1) (filter_where (starts_after position) ordered) in
    if ltb limit (length rows) then (take limit rows, true) else (rows, false)

abbrev pub cursor_after : CursorCodec → List VideoEvent × Bool → Option Text
unfolding encode_event_cursor
cursor_after codec (rows, false) = none
cursor_after codec (rows, true) =
    Option.map (λ r. encode_event_cursor codec (position_of r)) (last_of rows)

abbrev pub page_of : CursorCodec → ℕ → List VideoEvent × Bool → EventPage
unfolding encode_event_cursor
page_of codec total page = record {
  rows = page.0;
  total = total;
  next_cursor = cursor_after codec page;
}

unfoldable pub page_at : CursorCodec → ℕ → List VideoEvent → Option Position → EventPage
unfolding page_rows order_events encode_event_cursor filter_where
page_at codec limit filtered position =
    page_of codec (length filtered) (page_rows limit position (order_events filtered))

-- The cursor of the request; an empty text is no cursor.
unfoldable pub position_at : CursorCodec → Option Text → Result (Option Position)
unfolding decode_event_cursor
position_at codec none = ok none
position_at codec (some []) = ok none
position_at codec (some (c ∷ s)) =
    or_raise (decode_event_cursor codec (c ∷ s)) ErrorClass.validation_failed_error
      ErrorCode.validation_failed
    >>= λ position. ok (some position)

-- The listing of a video for its coaches; the game's shot clock and the counts by filter are apart.
unfoldable pub list_video_events :
    CursorCodec → User → ℕ → ℕ → Option Text → EventFilter → Db → Result EventPage
unfolding video_or_404 require_team_coach filter_where matches_filter position_at page_at
list_video_events codec user video_id limit cursor filter db = video_or_404 video_id db >>= λ video.
    require_team_coach user video.team_id db >>= λ _. position_at codec cursor >>= λ position.
    ok (page_at codec limit (filter_where (matches_filter video.id filter) db.events) position)

pub record SummaryCounts : Type 0 where
  pub total : ℕ
  pub needs_review : ℕ
  pub approved : ℕ
  pub rejected : ℕ
  pub machine_only : ℕ
  pub alpha_model_source : ℕ
  pub manual_source : ℕ

unfoldable pub count_where : (VideoEvent → Bool) → List VideoEvent → ℕ
unfolding filter_where
count_where p rows = length (filter_where p rows)

unfoldable pub compute_event_summary_counts : ℕ → Db → SummaryCounts
unfolding count_where is_manual filter_where
compute_event_summary_counts video_id db =
    let rows = filter_where (λ r. r.video_id == video_id) db.events in
    let by = λ (s : ReviewStatus). count_where (λ r. review_eq r.review_status s) rows in
    record {
      total = length rows;
      needs_review = by ReviewStatus.needs_review;
      approved = by ReviewStatus.approved;
      rejected = by ReviewStatus.rejected;
      machine_only = by ReviewStatus.machine_only;
      alpha_model_source = length rows - count_where is_manual rows;
      manual_source = count_where is_manual rows;
    }
