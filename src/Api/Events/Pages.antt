-- ===== src/Api/Events/Pages.antt =====
-- videos.py, `list_video_events`: that following the cursors gives every event once, in order.
use mathlib.Core.Option
use mathlib.Core.List.{append_assoc, Perm}
use nextballup.Prelude.{
  ℕ, zero, suc, ◌+◌, ◌<◌, ◌≡◌, refl, sym, ap, ◌∙◌, subst, true, Option, none, some, List, [], ◌∷◌,
  ◌++◌, arith, ltb, ltb→lt, inl, inr, Bool-cases, filter_where, length, All, UniqueBy,
}
use nextballup.Core.Text.{Text}
use nextballup.Db.{VideoEvent}
use nextballup.Api.Result.{ok, err}
use nextballup.Api.Events.Listing.{
  Position, position_of, insert_event, order_events, CursorCodec, encode_event_cursor, EventPage,
  starts_after, page_at, position_at,
}
use nextballup.Api.Events.Cursor.{CodecLaws, position_at-encode}
use nextballup.Api.Events.Order.{
  IsOrdered, order_events-IsOrdered, order_events-perm, filter_where_all, filter_where-after,
}
use nextballup.Api.Events.Page.{cut, page_at_last, page_at_more}

-- The rows of a page, and those of the pages that its cursor leads to.
abbrev pub with_next :
    List VideoEvent → Option Text → (Text → Option (List VideoEvent)) → Option (List VideoEvent)
with_next rows none more = some rows
with_next rows (some next) more = Option.map (λ rest. rows ++ rest) (more next)

-- A client that follows the cursors: None where the fuel or a cursor fails.
unfoldable pub follow :
    CursorCodec → ℕ → List VideoEvent → ℕ → Option Text → Option (List VideoEvent)
unfolding position_at page_at
follow codec limit filtered zero cursor = none
follow codec limit filtered (suc fuel) cursor = elim (position_at codec cursor) [
  | err _ ↦ none
  | ok position ↦
      let page = page_at codec limit filtered position in
      with_next page.rows page.next_cursor (λ next. follow codec limit filtered fuel (some next))
]

follow-rest :
    (codec : CursorCodec) (laws : CodecLaws codec) (limit : ℕ) (filtered : List VideoEvent)
    (fuel : ℕ) (cursor : Option Text) (position : Option Position) (pre rest : List VideoEvent)
    → 0 < limit
    → IsOrdered (order_events filtered)
    → position_at codec cursor ≡ ok position
    → order_events filtered ≡ (pre ++ rest)
    → filter_where (starts_after position) (order_events filtered) ≡ rest
    → length rest < fuel
    → follow codec limit filtered fuel cursor ≡ some rest
unfolding follow
follow-rest codec laws limit filtered zero cursor position pre rest pos o at' split e f =
    absurd (omega arith)
follow-rest codec laws limit filtered (suc fuel) cursor position pre rest pos o at' split e f =
    elim (Bool-cases (ltb limit (length rest))) [
      | inr n ↦
          rw (at', follow)
            (subst
              (λ (page : EventPage).
                with_next page.rows page.next_cursor
                  (λ next. follow codec limit filtered fuel (some next))
                ≡ some rest)
              (sym (page_at_last codec limit filtered position rest e (ground arith))) (refl))
      | inl t ↦
          let c = cut limit rest pos (ground arith) in
          let split' : order_events filtered ≡ ((pre ++ c.front) ++ (c.row ∷ c.rest)) =
            split
            ∙ ap (λ xs. pre ++ xs) c.whole
            ∙ sym (append_assoc pre c.front (c.row ∷ c.rest)) in
          let left =
            subst (λ xs. filter_where (starts_after (some (position_of c.row))) xs ≡ c.rest)
              (sym split')
              (filter_where-after (pre ++ c.front) c.row c.rest (subst IsOrdered split' o)) in
          let ih =
            follow-rest codec laws limit filtered fuel
              (some (encode_event_cursor codec (position_of c.row))) (some (position_of c.row))
              ((pre ++ c.front) ++ (c.row ∷ [])) c.rest pos o
              (position_at-encode codec laws (position_of c.row))
              (split' ∙ sym (append_assoc (pre ++ c.front) (c.row ∷ []) c.rest)) left
              (let s = c.shorter in omega arith) in
          rw (at', follow)
            (subst
              (λ (page : EventPage).
                with_next page.rows page.next_cursor
                  (λ next. follow codec limit filtered fuel (some next))
                ≡ some rest)
              (sym (
                page_at_more codec limit filtered position rest e (ltb→lt limit (length rest) t)
                  c.last))
              (rw ih (
                ap some (
                  ap (λ xs. xs ++ c.rest) c.taken
                  ∙ append_assoc c.front (c.row ∷ []) c.rest
                  ∙ sym c.whole))))
    ]

all_true : (xs : List VideoEvent) → All (λ _. true ≡ true) xs
all_true [] = tt
all_true (x ∷ xs) = (refl, all_true xs)

length-insert_event :
    (row : VideoEvent) (xs : List VideoEvent) → length (insert_event row xs) ≡ length xs + 1
unfolding insert_event
length-insert_event row [] = refl
length-insert_event row (x ∷ xs) = ground (arith, length-insert_event row xs)

length-order_events : (xs : List VideoEvent) → length (order_events xs) ≡ length xs
unfolding order_events
length-order_events [] = refl
length-order_events (x ∷ xs) =
    omega (arith, length-insert_event x (order_events xs), length-order_events xs)

-- The pages end, and give every event once, in order: a client that starts without a cursor and follows
-- each `next_cursor` is done after at most one request more than there are events, and the rows of its
-- pages, one page after the other, are all events that pass the filter, ordered by time and id. That is
-- for every page size but 0, a codec that reads its own texts back, and a table with a primary key that
-- does not change meanwhile.
pub follow_all :
    (codec : CursorCodec) (laws : CodecLaws codec) (limit : ℕ) (filtered : List VideoEvent)
    → 0 < limit
    → UniqueBy (λ r. r.id) filtered
    → (follow codec limit filtered (length filtered + 1) none ≡ some (order_events filtered))
      × IsOrdered (order_events filtered)
      × Perm (order_events filtered) filtered
unfolding position_at
follow_all codec laws limit filtered pos u =
    let o = order_events-IsOrdered filtered u in
    (
      follow-rest codec laws limit filtered (length filtered + 1) none none []
          (order_events filtered) pos o refl refl
          (filter_where_all (λ r. true) (order_events filtered) (all_true (order_events filtered)))
          (omega (arith, length-order_events filtered)),
      o,
      order_events-perm filtered,
    )
