-- ===== src/Api/Events/Order.antt =====
-- videos.py, `list_video_events`: the order of the events.
use mathlib.Core.List.{Perm}
use mathlib.Core.List.Perm
use nextballup.Prelude.{
  ◌≡◌, refl, Bool, true, false, some, List, [], ◌∷◌, ◌++◌, arith, ◌==◌, inl, inr, Bool-cases,
  filter_where, All, All-map, UniqueBy, any_where-false-All,
}
use nextballup.Db.{VideoEvent}
use nextballup.Api.Events.Listing.{position_of, is_after, insert_event, order_events, starts_after}

-- Each row stands after those in front of it.
abbrev pub IsOrdered : List VideoEvent → Type 0
IsOrdered [] = Unit
IsOrdered (x ∷ xs) = All (λ y. is_after (position_of x) y ≡ true) xs × IsOrdered xs

is_after_self : (x : VideoEvent) → is_after (position_of x) x ≡ false
is_after_self x = ground arith

is_after_asymm :
    (x y : VideoEvent) → is_after (position_of x) y ≡ true → is_after (position_of y) x ≡ false
is_after_asymm x y h = ground arith

is_after_trans :
    (x y z : VideoEvent)
    → is_after (position_of x) y ≡ true
    → is_after (position_of y) z ≡ true
    → is_after (position_of x) z ≡ true
is_after_trans x y z h k = ground arith

is_after_total :
    (x y : VideoEvent)
    → (y.id == x.id) ≡ false
    → is_after (position_of x) y ≡ false
    → is_after (position_of y) x ≡ true
is_after_total x y n h = ground arith

insert_event-All :
    (P : VideoEvent → Type 0) (row : VideoEvent) (xs : List VideoEvent)
    → P row
    → All P xs
    → All P (insert_event row xs)
unfolding insert_event
insert_event-All P row [] h all = (h, tt)
insert_event-All P row (x ∷ xs) h all = elim (Bool-cases (is_after (position_of row) x)) [
  | inl t ↦ rw t (h, all)
  | inr n ↦ rw n (all.0, insert_event-All P row xs h all.1)
]

order_events-All :
    (P : VideoEvent → Type 0) (xs : List VideoEvent) → All P xs → All P (order_events xs)
unfolding order_events
order_events-All P [] all = tt
order_events-All P (x ∷ xs) all =
    insert_event-All P x (order_events xs) all.0 (order_events-All P xs all.1)

insert_event-IsOrdered :
    (row : VideoEvent) (xs : List VideoEvent)
    → All (λ y. (y.id == row.id) ≡ false) xs
    → IsOrdered xs
    → IsOrdered (insert_event row xs)
unfolding insert_event
insert_event-IsOrdered row [] n h = (tt, tt)
insert_event-IsOrdered row (x ∷ xs) n h = elim (Bool-cases (is_after (position_of row) x)) [
  | inl t ↦ rw t ((t, All-map _ _ (λ y k. is_after_trans row x y t k) xs h.0), h)
  | inr f ↦ rw f (
    insert_event-All (λ y. is_after (position_of x) y ≡ true) row xs (is_after_total row x n.0 f)
        h.0,
    insert_event-IsOrdered row xs n.1 h.1,
  )
]

pub order_events-IsOrdered :
    (xs : List VideoEvent) → UniqueBy (λ r. r.id) xs → IsOrdered (order_events xs)
unfolding order_events
order_events-IsOrdered [] u = tt
order_events-IsOrdered (x ∷ xs) u =
    insert_event-IsOrdered x (order_events xs)
      (order_events-All (λ y. (y.id == x.id) ≡ false) xs
        (any_where-false-All (λ y. y.id == x.id) xs u.0))
      (order_events-IsOrdered xs u.1)

insert_event-perm :
    (row : VideoEvent) (xs : List VideoEvent) → Perm (insert_event row xs) (row ∷ xs)
unfolding insert_event
insert_event-perm row [] = Perm.refl (row ∷ [])
insert_event-perm row (x ∷ xs) = elim (Bool-cases (is_after (position_of row) x)) [
  | inl t ↦ rw t (Perm.refl (row ∷ x ∷ xs))
  | inr n ↦ rw n (Perm.trans (Perm.cons x (insert_event-perm row xs)) (Perm.swap row x xs))
]

pub order_events-perm : (xs : List VideoEvent) → Perm (order_events xs) xs
unfolding order_events
order_events-perm [] = Perm.refl []
order_events-perm (x ∷ xs) =
    Perm.trans (insert_event-perm x (order_events xs)) (Perm.cons x (order_events-perm xs))

pub filter_where_all :
    (p : VideoEvent → Bool) (xs : List VideoEvent)
    → All (λ x. p x ≡ true) xs
    → filter_where p xs ≡ xs
unfolding filter_where
filter_where_all p [] h = refl
filter_where_all p (x ∷ xs) h = rw (h.0, filter_where_all p xs h.1) refl

All-at :
    (P : VideoEvent → Type 0) (pre : List VideoEvent) (x : VideoEvent) (rest : List VideoEvent)
    → All P (pre ++ (x ∷ rest))
    → P x
All-at P [] x rest h = h.0
All-at P (p ∷ pre) x rest h = All-at P pre x rest h.1

-- What stands after a row of an ordered list is what follows it there.
pub filter_where-after :
    (pre : List VideoEvent) (x : VideoEvent) (rest : List VideoEvent)
    → IsOrdered (pre ++ (x ∷ rest))
    → filter_where (starts_after (some (position_of x))) (pre ++ (x ∷ rest)) ≡ rest
unfolding filter_where
filter_where-after [] x rest h =
    rw (is_after_self x) (filter_where_all (is_after (position_of x)) rest h.0)
filter_where-after (p ∷ pre) x rest h =
    rw (is_after_asymm p x (All-at (λ y. is_after (position_of p) y ≡ true) pre x rest h.0))
      (filter_where-after pre x rest h.1)
