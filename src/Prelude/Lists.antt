-- ===== src/Prelude/Lists.antt =====
-- Lists over the native numbers, and tables as lists of rows: SQL's UPDATE, DELETE and SELECT.
use Prim.Native.Nat.{ℕ, zero, suc, ◌≤◌}
use mathlib.Core.Path.{◌≡◌, refl, subst}
use mathlib.Core.Logic.{inl, inr}
use mathlib.Core.Bool.{Bool, true, false}
use mathlib.Core.Option
use mathlib.Core.Option.{Option, none, some}
use mathlib.Core.List.{List, [], ◌∷◌, ◌++◌}
use native.Mathlib.Omega.{arith}
use nextballup.Prelude.Tests.{if◌then◌else◌, Bool-cases}

module _ {ℓ} {A : Type ℓ} where
  abbrev pub length : List A → ℕ
  length [] = 0
  length (_ ∷ xs) = suc (length xs)

  abbrev pub take : ℕ → List A → List A
  take zero _ = []
  take (suc n) [] = []
  take (suc n) (x ∷ xs) = x ∷ take n xs

  -- A predicate on every row computes to a tuple, which the tactics read and build.
  abbrev pub All {κ} : (A → Type κ) → List A → Type κ
  All P [] = Unit
  All P (x ∷ xs) = P x × All P xs

  -- SELECT ... WHERE p
  unfoldable pub filter_where : (A → Bool) → List A → List A
  filter_where p [] = []
  filter_where p (x ∷ xs) = if p x then x ∷ filter_where p xs else filter_where p xs

  -- The first row of SELECT ... WHERE p, and None without one.
  unfoldable pub find_where : (A → Bool) → List A → Option A
  find_where p [] = none
  find_where p (x ∷ xs) = if p x then some x else find_where p xs

  -- UPDATE ... SET f WHERE p
  unfoldable pub update_where : (A → Bool) → (A → A) → List A → List A
  update_where p f [] = []
  update_where p f (x ∷ xs) = (if p x then f x else x) ∷ update_where p f xs

  unfoldable pub any_where : (A → Bool) → List A → Bool
  any_where p [] = false
  any_where p (x ∷ xs) = if p x then true else any_where p xs

  pub length-take : (n : ℕ) (xs : List A) → length (take n xs) ≤ n
  length-take zero xs = omega arith
  length-take (suc n) [] = omega arith
  length-take (suc n) (x ∷ xs) = omega (arith, length-take n xs)

  -- Two tables of good rows make one.
  pub All-append {κ} :
      (Good : A → Type κ) (old new : List A) → All Good old → All Good new → All Good (old ++ new)
  All-append Good [] new _ added = added
  All-append Good (row ∷ old) new kept added = (kept.0, All-append Good old new kept.1 added)

  pub All-map {κ μ} :
      (P : A → Type κ) (Q : A → Type μ)
      → ((x : A) → P x → Q x)
      → (xs : List A) → All P xs
      → All Q xs
  All-map P Q h [] _ = tt
  All-map P Q h (x ∷ xs) a = (h x a.0, All-map P Q h xs a.1)

  -- An update that keeps P on the rows that it takes keeps P on the table.
  pub All-update_where {κ} :
      (P : A → Type κ) (p : A → Bool) (f : A → A)
      → ((x : A) → p x ≡ true → P x → P (f x))
      → (xs : List A) → All P xs
      → All P (update_where p f xs)
  unfolding update_where
  All-update_where P p f keep [] _ = tt
  All-update_where P p f keep (x ∷ xs) a = (row (p x) refl, All-update_where P p f keep xs a.1)
    where
      row : (b : Bool) → p x ≡ b → P (if b then f x else x)
      row true e = keep x e a.0
      row false _ = a.0

  pub All-filter_where {κ} :
      (P : A → Type κ) (p : A → Bool) (xs : List A) → All P xs → All P (filter_where p xs)
  unfolding filter_where
  All-filter_where P p [] _ = tt
  All-filter_where P p (x ∷ xs) a = row (p x) (All-filter_where P p xs a.1)
    where
      row :
          (b : Bool)
          → All P (filter_where p xs)
          → All P (if b then x ∷ filter_where p xs else filter_where p xs)
      row true rest = (a.0, rest)
      row false rest = rest

  -- Every row that a SELECT returns meets its condition.
  pub filter_where-All : (p : A → Bool) (xs : List A) → All (λ x. p x ≡ true) (filter_where p xs)
  unfolding filter_where
  filter_where-All p [] = tt
  filter_where-All p (x ∷ xs) = row (p x) refl (filter_where-All p xs)
    where
      row :
          (b : Bool)
          → p x ≡ b
          → All (λ x. p x ≡ true) (filter_where p xs)
          → All (λ x. p x ≡ true) (if b then x ∷ filter_where p xs else filter_where p xs)
      row true e rest = (e, rest)
      row false _ rest = rest

  -- A row that is found meets the condition, and whatever holds of every row.
  pub find_where-All {κ} :
      (P : A → Type κ) (p : A → Bool) (xs : List A) {x : A}
      → All P xs
      → find_where p xs ≡ some x
      → (p x ≡ true) × P x
  unfolding find_where
  find_where-All P p [] a e = cc
  find_where-All P p (y ∷ ys) {x} a e = elim (Bool-cases (p y)) [
    | inl h ↦ let q : y ≡ x = Option.some-injective y x (rw h at e) in (rw (← q) h, subst P q a.0)
    | inr h ↦ find_where-All P p ys a.1 (rw h at e)
  ]

  pub find_where_self : (p : A → Bool) (xs : List A) {x : A} → find_where p xs ≡ some x → p x ≡ true
  find_where_self p xs e = (find_where-All (λ _. Unit {0}) p xs (All-unit xs) e).0
    where
      All-unit : (ys : List A) → All (λ _. Unit {0}) ys
      All-unit [] = tt
      All-unit (_ ∷ ys) = (tt, All-unit ys)

  -- An update that moves no row in or out of a search changes just the row that is found.
  pub find_where-update_where :
      (p q : A → Bool) (f : A → A)
      → ((x : A) → p (f x) ≡ p x)
      → (xs : List A)
      → find_where p (update_where q f xs)
        ≡ Option.map (λ x. if q x then f x else x) (find_where p xs)
  unfolding find_where update_where
  find_where-update_where p q f keep [] = refl
  find_where-update_where p q f keep (x ∷ xs) =
      ground (arith, keep x, find_where-update_where p q f keep xs)

  pub length-update_where :
      (p : A → Bool) (f : A → A) (xs : List A) → length (update_where p f xs) ≡ length xs
  unfolding update_where
  length-update_where p f [] = refl
  length-update_where p f (x ∷ xs) = omega (arith, length-update_where p f xs)

  -- An update that takes no row changes nothing.
  pub update_where_none :
      (p : A → Bool) (f : A → A) (xs : List A) → find_where p xs ≡ none → update_where p f xs ≡ xs
  unfolding update_where find_where
  update_where_none p f [] e = refl
  update_where_none p f (x ∷ xs) e = elim (Bool-cases (p x)) [
    | inl h ↦ absurd (cc (rw h at e))
    | inr h ↦ rw (h, update_where_none p f xs (rw h at e))
  ]

  -- A search for fewer rows finds nothing where a search for more finds nothing.
  pub find_where_none :
      (p q : A → Bool)
      → ((x : A) → q x ≡ true → p x ≡ true)
      → (xs : List A) → find_where p xs ≡ none
      → find_where q xs ≡ none
  unfolding find_where
  find_where_none p q h [] e = refl
  find_where_none p q h (x ∷ xs) e = elim (Bool-cases (p x)) [
    | inl t ↦ absurd (cc (rw t at e))
    | inr f ↦ elim (Bool-cases (q x)) [
      | inl t ↦ absurd (cc (h x t))
      | inr g ↦ rw g (find_where_none p q h xs (rw f at e))
    ]
  ]

  -- No row is taken twice by an update after which its own condition fails.
  pub find_where-update_where_none :
      (p : A → Bool) (f : A → A)
      → ((x : A) → p x ≡ true → p (f x) ≡ false)
      → (xs : List A) → find_where p (update_where p f xs) ≡ none
  unfolding find_where update_where
  find_where-update_where_none p f out [] = refl
  find_where-update_where_none p f out (x ∷ xs) = elim (Bool-cases (p x)) [
    | inl t ↦ rw (t, out x t) (find_where-update_where_none p f out xs)
    | inr n ↦ rw (n, n) (find_where-update_where_none p f out xs)
  ]

  -- A search that finds a row finds it in every longer table.
  pub find_where-append :
      (p : A → Bool) (xs ys : List A) {x : A}
      → find_where p xs ≡ some x
      → find_where p (xs ++ ys) ≡ some x
  unfolding find_where
  find_where-append p [] ys e = cc
  find_where-append p (x ∷ xs) ys e = elim (Bool-cases (p x)) [
    | inl t ↦ rw t (rw t at e)
    | inr n ↦ rw n (find_where-append p xs ys (rw n at e))
  ]

  pub find_where-append_none :
      (p : A → Bool) (xs ys : List A)
      → find_where p xs ≡ none
      → find_where p (xs ++ ys) ≡ find_where p ys
  unfolding find_where
  find_where-append_none p [] ys e = refl
  find_where-append_none p (x ∷ xs) ys e = elim (Bool-cases (p x)) [
    | inl t ↦ absurd (cc (rw t at e))
    | inr n ↦ rw n (find_where-append_none p xs ys (rw n at e))
  ]
