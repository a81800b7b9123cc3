-- ===== src/Prelude/Sort.antt =====
-- `list.sort` and ORDER BY: a stable sort by a test `before`, which is true of equal rows.
use Prim.Native.Nat.{ℕ, zero, suc}
use mathlib.Core.Path.{◌≡◌, refl, ap}
use mathlib.Core.Logic.{◌⊎◌, inl, inr}
use mathlib.Core.Bool.{Bool, true, false}
use mathlib.Core.List.{List, [], ◌∷◌, ◌++◌, Perm}
use mathlib.Core.List.Perm
use native.Mathlib.Omega.{arith}
use nextballup.Prelude.Tests.{if◌then◌else◌, Bool-cases}
use nextballup.Prelude.Lists.{All, All-map, length, take}

module _ {ℓ} {A : Type ℓ} where
  unfoldable pub insert_by : (A → A → Bool) → A → List A → List A
  insert_by before x [] = x ∷ []
  insert_by before x (y ∷ ys) = if before x y then x ∷ y ∷ ys else y ∷ insert_by before x ys

  unfoldable pub sort_by : (A → A → Bool) → List A → List A
  unfolding insert_by
  sort_by before [] = []
  sort_by before (x ∷ xs) = insert_by before x (sort_by before xs)

  -- No row stands before one that it should follow.
  abbrev pub SortedBy : (A → A → Bool) → List A → Type ℓ
  SortedBy before [] = Unit
  SortedBy before (x ∷ xs) = All (λ y. before x y ≡ true) xs × SortedBy before xs

  insert_by-All {κ} :
      (P : A → Type κ) (before : A → A → Bool) (x : A) (xs : List A)
      → P x
      → All P xs
      → All P (insert_by before x xs)
  unfolding insert_by
  insert_by-All P before x [] h all = (h, tt)
  insert_by-All P before x (y ∷ ys) h all = elim (Bool-cases (before x y)) [
    | inl t ↦ rw t (h, all)
    | inr n ↦ rw n (all.0, insert_by-All P before x ys h all.1)
  ]

  pub sort_by-All {κ} :
      (P : A → Type κ) (before : A → A → Bool) (xs : List A) → All P xs → All P (sort_by before xs)
  unfolding sort_by
  sort_by-All P before [] all = tt
  sort_by-All P before (x ∷ xs) all =
      insert_by-All P before x (sort_by before xs) all.0 (sort_by-All P before xs all.1)

  length-insert_by :
      (before : A → A → Bool) (x : A) (xs : List A)
      → length (insert_by before x xs) ≡ suc (length xs)
  unfolding insert_by
  length-insert_by before x [] = refl
  length-insert_by before x (y ∷ ys) = ground (arith, length-insert_by before x ys)

  pub length-sort_by :
      (before : A → A → Bool) (xs : List A) → length (sort_by before xs) ≡ length xs
  unfolding sort_by
  length-sort_by before [] = refl
  length-sort_by before (x ∷ xs) =
      omega (arith, length-insert_by before x (sort_by before xs), length-sort_by before xs)

  module _ (before : A → A → Bool) (total : (x y : A) → before x y ≡ false → before y x ≡ true)
      (trans : (x y z : A) → before x y ≡ true → before y z ≡ true → before x z ≡ true) where
    insert_by-SortedBy :
        (x : A) (xs : List A) → SortedBy before xs → SortedBy before (insert_by before x xs)
    unfolding insert_by
    insert_by-SortedBy x [] h = (tt, tt)
    insert_by-SortedBy x (y ∷ ys) h = elim (Bool-cases (before x y)) [
      | inl t ↦ rw t ((t, All-map _ _ (λ z k. trans x y z t k) ys h.0), h)
      | inr n ↦ rw n (
        insert_by-All (λ z. before y z ≡ true) before x ys (total x y n) h.0,
        insert_by-SortedBy x ys h.1,
      )
    ]

    pub sort_by-SortedBy : (xs : List A) → SortedBy before (sort_by before xs)
    unfolding sort_by
    sort_by-SortedBy [] = tt
    sort_by-SortedBy (x ∷ xs) = insert_by-SortedBy x (sort_by before xs) (sort_by-SortedBy xs)

module _ {ℓ} {A : Type ℓ} where
  -- What is left of a table after its first rows; where something is left, they are as many as asked for.
  pub take_left :
      (n : ℕ) (xs : List A)
      → (left : List A) × ((take n xs ++ left) ≡ xs) × ((left ≡ []) ⊎ (length (take n xs) ≡ n))
  take_left zero xs = (xs, refl, inr refl)
  take_left (suc n) [] = ([], refl, inl refl)
  take_left (suc n) (x ∷ xs) =
      let (left, whole, full) = take_left n xs in
      (left, ap (λ ys. x ∷ ys) whole, more left n xs full)
    where
      more :
          (left : List A) (n : ℕ) (xs : List A)
          → (left ≡ []) ⊎ (length (take n xs) ≡ n)
          → (left ≡ []) ⊎ (suc (length (take n xs)) ≡ suc n)
      more left n xs (inl e) = inl e
      more left n xs (inr e) = inr (omega arith)

  insert_by-perm :
      (before : A → A → Bool) (x : A) (xs : List A) → Perm (insert_by before x xs) (x ∷ xs)
  unfolding insert_by
  insert_by-perm before x [] = Perm.refl (x ∷ [])
  insert_by-perm before x (y ∷ ys) = elim (Bool-cases (before x y)) [
    | inl t ↦ rw t (Perm.refl (x ∷ y ∷ ys))
    | inr n ↦ rw n (Perm.trans (Perm.cons y (insert_by-perm before x ys)) (Perm.swap x y ys))
  ]

  pub sort_by-perm : (before : A → A → Bool) (xs : List A) → Perm (sort_by before xs) xs
  unfolding sort_by
  sort_by-perm before [] = Perm.refl []
  sort_by-perm before (x ∷ xs) =
      Perm.trans (insert_by-perm before x (sort_by before xs))
        (Perm.cons x (sort_by-perm before xs))
