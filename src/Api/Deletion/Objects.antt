-- ===== src/Api/Deletion/Objects.antt =====
-- videos.py: the objects that the cleanup of a video removes.
use mathlib.Core.Option
use nextballup.Prelude.{
  ◌≡◌, ◌∙◌, subst, true, false, ◌||◌, Option, none, some, List, [], ◌∷◌, ◌++◌, arith, inl, inr,
  Bool-cases, any_where, All, find_where-any_where, find_where-All,
}
use nextballup.Core.Text.{Text, text_eq, text_eq_sound, is_blank}
use nextballup.Api.Deletion.{ObjectRemover, CleanupFailure, delete_objects}

-- The object of a key is deleted, if there is a key.
abbrev pub Gone : ObjectRemover → CleanupFailure × Option Text → Type 0
Gone store o =
    (key : Text) → o.1 ≡ some key → is_blank (some key) ≡ false → store.delete_object key ≡ true

grown :
    (failures : List CleanupFailure) (label : CleanupFailure) → failures ++ (label ∷ []) ≡ [] → ⊥
grown [] label e = cc e
grown (f ∷ fs) label e = cc e

-- A failure is never forgotten.
pub delete_objects_clean :
    (store : ObjectRemover) (objects : List (CleanupFailure × Option Text)) (attempted : List Text)
    (failures : List CleanupFailure)
    → delete_objects store objects attempted failures ≡ []
    → failures ≡ []
unfolding delete_objects
delete_objects_clean store [] attempted failures e = e
delete_objects_clean store ((label, none) ∷ objects) attempted failures e =
    delete_objects_clean store objects attempted failures e
delete_objects_clean store ((label, some key) ∷ objects) attempted failures e =
    elim (Bool-cases (is_blank (some key) || any_where (λ k. text_eq k key) attempted)) [
      | inl skip ↦ delete_objects_clean store objects attempted failures (rw skip at e)
      | inr try ↦ elim (Bool-cases (store.delete_object key)) [
        | inl t ↦ delete_objects_clean store objects (key ∷ attempted) failures (rw (try, t) at e)
        | inr f ↦
            let grows =
              delete_objects_clean store objects (key ∷ attempted) (failures ++ (label ∷ []))
                (rw (try, f) at e) in
            absurd (grown failures label grows)
      ]
    ]

-- A key that is passed over is empty, or was deleted before.
passed-Gone :
    (store : ObjectRemover) (label : CleanupFailure) (key : Text) (attempted : List Text)
    → All (λ k. store.delete_object k ≡ true) attempted
    → (is_blank (some key) || any_where (λ k. text_eq k key) attempted) ≡ true
    → Gone store (label, some key)
passed-Gone store label key attempted gone skip k same full =
    let named : key ≡ k = Option.some-injective key k same in
    let tried : any_where (λ x. text_eq x key) attempted ≡ true =
      ground (arith, skip, rw (← named) at full) in
    let found = find_where-any_where (λ x. text_eq x key) attempted tried in
    let fact =
      find_where-All (λ x. store.delete_object x ≡ true) (λ x. text_eq x key) attempted gone
        found.1 in
    subst (λ x. store.delete_object x ≡ true) (text_eq_sound found.0 key fact.0 ∙ named) fact.1

-- Without a failure at the end, every object is gone.
pub delete_objects-Gone :
    (store : ObjectRemover) (objects : List (CleanupFailure × Option Text)) (attempted : List Text)
    (failures : List CleanupFailure)
    → All (λ k. store.delete_object k ≡ true) attempted
    → delete_objects store objects attempted failures ≡ []
    → All (Gone store) objects
unfolding delete_objects
delete_objects-Gone store [] attempted failures gone e = tt
delete_objects-Gone store ((label, none) ∷ objects) attempted failures gone e =
    ((λ key same _. absurd (cc same)), delete_objects-Gone store objects attempted failures gone e)
delete_objects-Gone store ((label, some key) ∷ objects) attempted failures gone e =
    elim (Bool-cases (is_blank (some key) || any_where (λ k. text_eq k key) attempted)) [
      | inl skip ↦ (
        passed-Gone store label key attempted gone skip,
        delete_objects-Gone store objects attempted failures gone (rw skip at e),
      )
      | inr try ↦ elim (Bool-cases (store.delete_object key)) [
        | inl t ↦ (
          (λ k same _.
              subst (λ x. store.delete_object x ≡ true) (Option.some-injective key k same) t),
          delete_objects-Gone store objects (key ∷ attempted) failures (t, gone) (rw (try, t) at e),
        )
        | inr f ↦ absurd (
            grown failures label (
              delete_objects_clean store objects (key ∷ attempted) (failures ++ (label ∷ []))
                (rw (try, f) at e)))
      ]
    ]
