-- ===== src/Prelude/Search.antt =====
-- Searches of a table for some row that meets a condition.
use Prim.Native.Nat.{ℕ, zero, suc, ◌≤◌}
use mathlib.Core.Path.{◌≡◌, refl, sym, ap, ◌∙◌, subst}
use mathlib.Core.Logic.{inl, inr}
use mathlib.Core.Bool.{Bool, true, false, not, ◌&&◌}
use mathlib.Core.Option
use mathlib.Core.Option.{Option, none, some}
use mathlib.Core.List.{List, [], ◌∷◌}
use native.Mathlib.Omega.{arith}
use nextballup.Prelude.Tests.{if◌then◌else◌, Bool-cases, ◌==◌, ==_refl}
use nextballup.Prelude.Lists.{
  All, any_where, find_where, filter_where, update_where, length, take, update_where_none,
}

module _ {ℓ} {A : Type ℓ} where
  -- A row that one search finds is there for every search whose condition it meets.
  pub any_where-find_where :
      (p q : A → Bool) (xs : List A) {x : A}
      → find_where p xs ≡ some x
      → q x ≡ true
      → any_where q xs ≡ true
  unfolding any_where find_where
  any_where-find_where p q [] e t = absurd (cc e)
  any_where-find_where p q (y ∷ ys) {x} e t = elim (Bool-cases (q y)) [
    | inl h ↦ rw h refl
    | inr n ↦ elim (Bool-cases (p y)) [
      | inl h ↦ absurd (cc (ap q (Option.some-injective y x (rw h at e))))
      | inr m ↦ rw n (any_where-find_where p q ys (rw m at e) t)
    ]
  ]

  pub find_where-any_where :
      (p : A → Bool) (xs : List A) → any_where p xs ≡ true → (x : A) × (find_where p xs ≡ some x)
  unfolding any_where find_where
  find_where-any_where p [] e = absurd (cc e)
  find_where-any_where p (x ∷ xs) e = elim (Bool-cases (p x)) [
    | inl h ↦ (x, rw h refl)
    | inr n ↦ rw n (find_where-any_where p xs (rw n at e))
  ]

  pub any_where-filter_where :
      (p q : A → Bool) (xs : List A)
      → any_where (λ x. p x && q x) xs ≡ true
      → any_where p (filter_where q xs) ≡ true
  unfolding any_where filter_where
  any_where-filter_where p q [] e = e
  any_where-filter_where p q (x ∷ xs) e = ground (arith, any_where-filter_where p q xs)

  -- An update of the rows keeps what is searched for, if it does so on each row.
  pub any_where-update_where :
      (p p' q : A → Bool) (f : A → A)
      → ((x : A) → p x ≡ true → p' (if q x then f x else x) ≡ true)
      → (xs : List A) → any_where p xs ≡ true
      → any_where p' (update_where q f xs) ≡ true
  unfolding any_where update_where
  any_where-update_where p p' q f keep [] e = e
  any_where-update_where p p' q f keep (x ∷ xs) e = elim (Bool-cases (p x)) [
    | inl h ↦ rw (keep x h) refl
    | inr n ↦ elim (Bool-cases (p' (if q x then f x else x))) [
      | inl h ↦ rw h refl
      | inr m ↦ rw m (any_where-update_where p p' q f keep xs (rw n at e))
    ]
  ]

  pub length-filter_where : (p : A → Bool) (xs : List A) → length (filter_where p xs) ≤ length xs
  unfolding filter_where
  length-filter_where p [] = omega arith
  length-filter_where p (x ∷ xs) = ground (arith, length-filter_where p xs)

  pub take_all : (n : ℕ) (xs : List A) → length xs ≤ n → take n xs ≡ xs
  take_all zero [] h = refl
  take_all zero (x ∷ xs) h = absurd (omega arith)
  take_all (suc n) [] h = refl
  take_all (suc n) (x ∷ xs) h = ap (λ ys. x ∷ ys) (take_all n xs (omega arith))

  pub find_where_no_any :
      (p : A → Bool) (xs : List A) → find_where p xs ≡ none → any_where p xs ≡ false
  unfolding any_where find_where
  find_where_no_any p [] e = refl
  find_where_no_any p (x ∷ xs) e = elim (Bool-cases (p x)) [
    | inl t ↦ absurd (cc (rw t at e))
    | inr n ↦ rw n (find_where_no_any p xs (rw n at e))
  ]

  pub any_where-false-none :
      (p : A → Bool) (xs : List A) → any_where p xs ≡ false → find_where p xs ≡ none
  unfolding any_where find_where
  any_where-false-none p [] e = refl
  any_where-false-none p (x ∷ xs) e = elim (Bool-cases (p x)) [
    | inl t ↦ absurd (cc (rw t at e))
    | inr n ↦ rw n (any_where-false-none p xs (rw n at e))
  ]

  pub any_where-false-All :
      (p : A → Bool) (xs : List A) → any_where p xs ≡ false → All (λ x. p x ≡ false) xs
  unfolding any_where
  any_where-false-All p [] e = tt
  any_where-false-All p (x ∷ xs) e = elim (Bool-cases (p x)) [
    | inl t ↦ absurd (cc (rw t at e))
    | inr n ↦ (n, any_where-false-All p xs (rw n at e))
  ]

  pub All-both {κ μ} :
      (P : A → Type κ) (Q : A → Type μ) (xs : List A)
      → All P xs
      → All Q xs
      → All (λ x. P x × Q x) xs
  All-both P Q [] h k = tt
  All-both P Q (x ∷ xs) h k = ((h.0, k.0), All-both P Q xs h.1 k.1)

  -- What a DELETE takes away is not found any more.
  pub find_where-filter_where_none :
      (p : A → Bool) (xs : List A) → find_where p (filter_where (λ x. not (p x)) xs) ≡ none
  unfolding find_where filter_where
  find_where-filter_where_none p [] = refl
  find_where-filter_where_none p (x ∷ xs) = elim (Bool-cases (p x)) [
    | inl t ↦ rw t (find_where-filter_where_none p xs)
    | inr n ↦ rw (n, n) (find_where-filter_where_none p xs)
  ]

  -- No two rows have one key.
  abbrev pub UniqueBy : (A → ℕ) → List A → Type 0
  UniqueBy key [] = Unit
  UniqueBy key (x ∷ xs) = (any_where (λ y. key y == key x) xs ≡ false) × UniqueBy key xs

  -- An update by key of a row that was found keeps what holds of all rows, if it does so on that row.
  pub All-update_found {κ} :
      (P : A → Type κ) (key : A → ℕ) (p : A → Bool) (f : A → A) (xs : List A) {row : A}
      → UniqueBy key xs
      → find_where p xs ≡ some row
      → P (f row)
      → All P xs
      → All P (update_where (λ x. key x == key row) f xs)
  unfolding find_where update_where any_where
  All-update_found P key p f [] u e h all = tt
  All-update_found P key p f (x ∷ xs) {row} u e h all = elim (Bool-cases (p x)) [
    | inl t ↦
        let same : x ≡ row = Option.some-injective x row (rw t at e) in
        rw (ap (λ r. key x == key r) (sym same), ==_refl (key x), ◌==◌)
          (
            subst (λ r. P (f r)) (sym same) h,
            subst (λ r. All P (update_where (λ y. key y == key r) f xs)) same
                (rw
                  (update_where_none (λ y. key y == key x) f xs
                    (any_where-false-none (λ y. key y == key x) xs u.0))
                  all.1),
          )
    | inr n ↦ elim (Bool-cases (key x == key row)) [
      | inl t ↦
          let q : (key row == key x) ≡ true = ground arith in
          let there : true ≡ false =
            sym (any_where-find_where p (λ y. key y == key x) xs (rw n at e) q) ∙ u.0 in
          absurd (cc there)
      | inr m ↦ rw m (all.0, All-update_found P key p f xs u.1 (rw n at e) h all.1)
    ]
  ]
