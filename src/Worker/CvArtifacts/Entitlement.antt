-- ===== src/Worker/CvArtifacts/Entitlement.antt =====
-- cv_pipeline.py: `_active_artifact_for_stage` picks an entitled artifact that no other one beats.
use nextballup.Prelude.{
  ℕ, ◌≤◌, ◌<◌, ◌≡◌, refl, Bool, true, false, Option, none, some, List, [], ◌∷◌, arith, ◌==◌, leb,
  inl, inr, ◌⊎◌, Bool-cases, All, filter_where, All-map,
}
use nextballup.Core.Enums.{ProcessingJobStage}
use nextballup.Db.{Db, CvModelArtifact}
use nextballup.Worker.CvArtifacts.{entitled, better, best, active_artifact_for_stage}

-- a comes no later than b in ORDER BY min_plan_tier DESC, created_at DESC.
abbrev AtLeast : CvModelArtifact → CvModelArtifact → Type 0
AtLeast a b =
    (b.min_plan_tier < a.min_plan_tier)
    ⊎ ((b.min_plan_tier ≡ a.min_plan_tier) × (b.created_at ≤ a.created_at))

-- What a choice among the rows that meet p promises: none only when there is no such row, else one
-- that meets p and comes first by the order among those that do.
pub BestOf : (CvModelArtifact → Bool) → List CvModelArtifact → Option CvModelArtifact → Type 0
BestOf p rows none = All (λ b. p b ≡ false) rows
BestOf p rows (some a) = (p a ≡ true) × All (λ b. p b ≡ true → AtLeast a b) rows

AtLeast-trans : (a b c : CvModelArtifact) → AtLeast a b → AtLeast b c → AtLeast a c
AtLeast-trans a b c h k = ground arith

better-BestOf :
    (p : CvModelArtifact → Bool) (x : CvModelArtifact) (rows : List CvModelArtifact)
    → p x ≡ true
    → (o : Option CvModelArtifact) → BestOf p rows o
    → BestOf p (x ∷ rows) (better x o)
unfolding BestOf better
better-BestOf p x rows t none h =
    (t, ((λ _. inr (refl, omega arith)), All-map _ _ (λ b n y. absurd (cc (n, y))) rows h))
better-BestOf p x rows t (some a) h =
    let kept : AtLeast a x → BestOf p (x ∷ rows) (some a) = λ g. (h.0, ((λ _. g), h.1)) in
    let taken : AtLeast x a → BestOf p (x ∷ rows) (some x) = λ g. (
      t,
      ((λ _. inr (refl, omega arith)), All-map _ _ (λ b k y. AtLeast-trans x a b g (k y)) rows h.1),
    ) in
    elim (Bool-cases (x.min_plan_tier == a.min_plan_tier)) [
      | inl e ↦ elim (Bool-cases (leb a.created_at x.created_at)) [
        | inl l ↦ rw (e, l) (taken (ground arith))
        | inr l ↦ rw (e, l) (kept (ground arith))
      ]
      | inr n ↦ elim (Bool-cases (leb a.min_plan_tier x.min_plan_tier)) [
        | inl l ↦ rw (n, l) (taken (ground arith))
        | inr l ↦ rw (n, l) (kept (ground arith))
      ]
    ]

skipped-BestOf :
    (p : CvModelArtifact → Bool) (x : CvModelArtifact) (rows : List CvModelArtifact)
    → p x ≡ false
    → (o : Option CvModelArtifact) → BestOf p rows o
    → BestOf p (x ∷ rows) o
unfolding BestOf
skipped-BestOf p x rows f none h = (f, h)
skipped-BestOf p x rows f (some a) h = (h.0, ((λ y. absurd (cc (f, y))), h.1))

best-BestOf :
    (p : CvModelArtifact → Bool) (rows : List CvModelArtifact)
    → BestOf p rows (best (filter_where p rows))
unfolding best filter_where BestOf
best-BestOf p [] = tt
best-BestOf p (x ∷ rows) = elim (Bool-cases (p x)) [
  | inl t ↦ rw t (better-BestOf p x rows t _ (best-BestOf p rows))
  | inr f ↦ rw f (skipped-BestOf p x rows f _ (best-BestOf p rows))
]

-- The artifact of a stage is one of that stage that is active, free for commercial use and open to
-- the plan's tier, and no other such artifact has a higher tier, or the same tier and a later
-- creation; there is none exactly when no artifact qualifies.
pub active_artifact_for_stage-BestOf :
    (stage : ProcessingJobStage) (plan_tier : ℕ) (db : Db)
    → BestOf (entitled stage plan_tier) db.artifacts (active_artifact_for_stage stage plan_tier db)
unfolding active_artifact_for_stage
active_artifact_for_stage-BestOf stage plan_tier db =
    best-BestOf (entitled stage plan_tier) db.artifacts
