-- ===== src/Api/Events/Page.antt =====
-- videos.py, `list_video_events`: the rows of one page, and whether there are more.
use mathlib.Core.Option
use nextballup.Prelude.{
  ℕ, zero, suc, ◌+◌, ◌≤◌, ◌<◌, ◌≡◌, refl, ap, ◌∙◌, true, false, Option, none, some, List, [], ◌∷◌,
  ◌++◌, arith, ltb, filter_where, length, take,
}
use nextballup.Db.{VideoEvent}
use nextballup.Api.Events.Listing.{
  Position, position_of, order_events, CursorCodec, encode_event_cursor, page_of, starts_after,
  last_of, page_rows, page_at,
}

-- A list cut after its `n`th row.
pub record Cut (n : ℕ) (xs : List VideoEvent) : Type 0 where
  pub front : List VideoEvent
  pub row : VideoEvent
  pub rest : List VideoEvent
  pub whole : xs ≡ (front ++ (row ∷ rest))
  pub taken : take n xs ≡ (front ++ (row ∷ []))
  pub last : last_of (take n xs) ≡ some row
  pub shorter : length rest < length xs

last_of-cons :
    (x : VideoEvent) (xs : List VideoEvent) {y : VideoEvent}
    → last_of xs ≡ some y
    → last_of (x ∷ xs) ≡ some y
last_of-cons x [] e = absurd (cc e)
last_of-cons x (z ∷ xs) e = e

pub cut : (n : ℕ) (xs : List VideoEvent) → 0 < n → n ≤ length xs → Cut n xs
cut zero xs h k = absurd (omega arith)
cut (suc n) [] h k = absurd (omega arith)
cut (suc zero) (x ∷ xs) h k = record {
  front = [];
  row = x;
  rest = xs;
  whole = refl;
  taken = refl;
  last = refl;
  shorter = omega arith;
}
cut (suc (suc n)) (x ∷ xs) h k =
    let c = cut (suc n) xs (omega arith) (omega arith) in
    record {
      front = x ∷ c.front;
      row = c.row;
      rest = c.rest;
      whole = ap (λ ys. x ∷ ys) c.whole;
      taken = ap (λ ys. x ∷ ys) c.taken;
      last = last_of-cons x (take (suc n) xs) c.last;
      shorter = let s = c.shorter in omega arith;
    }

take_short : (n : ℕ) (xs : List VideoEvent) → length xs ≤ n → take n xs ≡ xs
take_short zero [] h = refl
take_short zero (x ∷ xs) h = absurd (omega arith)
take_short (suc n) [] h = refl
take_short (suc n) (x ∷ xs) h = ap (λ ys. x ∷ ys) (take_short n xs (omega arith))

take-take : (n : ℕ) (xs : List VideoEvent) → take n (take (suc n) xs) ≡ take n xs
take-take zero xs = refl
take-take (suc n) [] = refl
take-take (suc n) (x ∷ xs) = ap (λ ys. x ∷ ys) (take-take n xs)

length-take_le : (n : ℕ) (xs : List VideoEvent) → n ≤ length xs → length (take n xs) ≡ n
length-take_le zero xs h = refl
length-take_le (suc n) [] h = absurd (omega arith)
length-take_le (suc n) (x ∷ xs) h = omega (arith, length-take_le n xs (omega arith))

page_rows_last :
    (limit : ℕ) (position : Option Position) (ordered rest : List VideoEvent)
    → filter_where (starts_after position) ordered ≡ rest
    → length rest ≤ limit
    → page_rows limit position ordered ≡ (rest, false)
unfolding page_rows
page_rows_last limit position ordered rest e h =
    let all : take (limit + 1) rest ≡ rest = take_short (limit + 1) rest (omega arith) in
    let few : ltb limit (length rest) ≡ false = ground arith in rw (e, all, few) refl

page_rows_more :
    (limit : ℕ) (position : Option Position) (ordered rest : List VideoEvent)
    → filter_where (starts_after position) ordered ≡ rest
    → limit < length rest
    → page_rows limit position ordered ≡ (take limit rest, true)
unfolding page_rows
page_rows_more limit position ordered rest e h =
    let one : limit + 1 ≡ suc limit = omega arith in
    let count = length-take_le (suc limit) rest (omega arith) in
    let many : ltb limit (length (take (suc limit) rest)) ≡ true = ground arith in
    rw (e, one, many, take-take limit rest) refl

pub page_at_last :
    (codec : CursorCodec) (limit : ℕ) (filtered : List VideoEvent) (position : Option Position)
    (rest : List VideoEvent)
    → filter_where (starts_after position) (order_events filtered) ≡ rest
    → length rest ≤ limit
    → page_at codec limit filtered position
      ≡ record { rows = rest; total = length filtered; next_cursor = none }
unfolding page_at
page_at_last codec limit filtered position rest e h =
    ap (page_of codec (length filtered))
      (page_rows_last limit position (order_events filtered) rest e h)

pub page_at_more :
    (codec : CursorCodec) (limit : ℕ) (filtered : List VideoEvent) (position : Option Position)
    (rest : List VideoEvent) {row : VideoEvent}
    → filter_where (starts_after position) (order_events filtered) ≡ rest
    → limit < length rest
    → last_of (take limit rest) ≡ some row
    → page_at codec limit filtered position ≡ record {
      rows = take limit rest;
      total = length filtered;
      next_cursor = some (encode_event_cursor codec (position_of row));
    }
unfolding page_at encode_event_cursor
page_at_more codec limit filtered position rest {row} e h l =
    ap (page_of codec (length filtered))
      (page_rows_more limit position (order_events filtered) rest e h)
    ∙ ap
        (λ r. record {
          rows = take limit rest;
          total = length filtered;
          next_cursor = Option.map (λ x. encode_event_cursor codec (position_of x)) r;
        })
        l
