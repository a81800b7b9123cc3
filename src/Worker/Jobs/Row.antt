-- ===== src/Worker/Jobs/Row.antt =====
-- The rows of `processing_jobs` by their primary key: what one UPDATE does to the row with a given id.
use mathlib.Core.Option
use nextballup.Prelude.{
  ℕ, ◌≡◌, refl, Bool, true, ◌&&◌, Option, none, some, List, [], ◌∷◌, arith, ◌==◌, ==→eq,
  if◌then◌else◌, inl, inr, ap, ◌∙◌, find_where_self, Bool-cases, Option-cases, find_where,
  update_where, find_where_none, find_where-update_where,
}
use nextballup.Core.Enums.{stage_eq, ProcessingJobStage}
use nextballup.Db.{ProcessingJob}

-- The primary key: no two rows have one id.
abbrev pub UniqueIds : List ProcessingJob → Type 0
UniqueIds [] = Unit
UniqueIds (j ∷ js) = (find_where (λ k. k.id == j.id) js ≡ none) × UniqueIds js

-- The row of a video's stage.
unfoldable pub stage_job : ℕ → ProcessingJobStage → List ProcessingJob → Option ProcessingJob
stage_job video_id stage = find_where (λ j. j.video_id == video_id && stage_eq j.stage stage)

-- An update that leaves the identity of a row alone: its id, its video and its stage.
pub record KeepsIdentity (f : ProcessingJob → ProcessingJob) : Type 0 where
  pub same_id : (j : ProcessingJob) → (f j).id ≡ j.id
  pub same_video : (j : ProcessingJob) → (f j).video_id ≡ j.video_id
  pub same_stage : (j : ProcessingJob) → (f j).stage ≡ j.stage

module _ (q : ProcessingJob → Bool) (f : ProcessingJob → ProcessingJob) where
  pub update_where-UniqueIds :
      KeepsIdentity f → (js : List ProcessingJob) → UniqueIds js → UniqueIds (update_where q f js)
  unfolding update_where
  update_where-UniqueIds keeps [] _ = tt
  update_where-UniqueIds keeps (j ∷ js) u =
      let same : (if q j then f j else j).id ≡ j.id = ground (arith, keeps.same_id j) in
      (
        rw
            (find_where-update_where (λ k. k.id == (if q j then f j else j).id) q f
              (λ k. rw (keeps.same_id k)) js)
            (rw same (rw u.0)),
        update_where-UniqueIds keeps js u.1,
      )

  pub stage_job-update :
      KeepsIdentity f
      → (video_id : ℕ) (stage : ProcessingJobStage) (js : List ProcessingJob)
      → stage_job video_id stage (update_where q f js)
        ≡ Option.map (λ j. if q j then f j else j) (stage_job video_id stage js)
  unfolding stage_job
  stage_job-update keeps video_id stage js =
      find_where-update_where (λ j. j.video_id == video_id && stage_eq j.stage stage) q f
        (λ j. rw (keeps.same_video j, keeps.same_stage j)) js

-- With the primary key, a guarded search by id is a test of the one row with that id.
pub find_where_id :
    (k : ℕ) (q : ProcessingJob → Bool) (js : List ProcessingJob)
    → UniqueIds js
    → find_where (λ j. j.id == k && q j) js
      ≡ Option.bind (find_where (λ j. j.id == k) js) (λ j. if q j then some j else none)
unfolding find_where Option.bind
find_where_id k q [] u = refl
find_where_id k q (j ∷ js) u = elim (Bool-cases (j.id == k)) [
  | inl e ↦ elim (Bool-cases (q j)) [
    | inl t ↦ rw (e, t)
    | inr f ↦
        rw (e, f)
          (find_where_none (λ i. i.id == k) (λ i. i.id == k && q i) (λ i t. ground arith) js
            (rw (==→eq j.id k e) at u.0))
  ]
  | inr n ↦ rw n (find_where_id k q js u.1)
]

-- What a guarded search by id finds is the row with that id, and its guard holds.
pub find_where_guard :
    (k : ℕ) (q : ProcessingJob → Bool) (js : List ProcessingJob) {j : ProcessingJob}
    → UniqueIds js
    → find_where (λ i. i.id == k && q i) js ≡ some j
    → (find_where (λ i. i.id == k) js ≡ some j) × (q j ≡ true)
unfolding Option.bind
find_where_guard k q js {j} u e = elim (Option-cases (find_where (λ i. i.id == k) js)) [
  | inl n ↦ absurd (cc (rw (find_where_id k q js u, n) at e))
  | inr (i, s) ↦ elim (Bool-cases (q i)) [
    | inl t ↦
        let same : i ≡ j = Option.some-injective i j (rw (find_where_id k q js u, s, t) at e) in
        (s ∙ ap some same, rw (← same) t)
    | inr f ↦ absurd (cc (rw (find_where_id k q js u, s, f) at e))
  ]
]

-- The row with the id k after an UPDATE of the rows with that id that meet q.
pub find_where-update_id :
    (k i : ℕ) (q : ProcessingJob → Bool) (f : ProcessingJob → ProcessingJob)
    (js : List ProcessingJob) {j : ProcessingJob}
    → ((x : ProcessingJob) → (f x).id ≡ x.id)
    → i ≡ k
    → find_where (λ x. x.id == k) js ≡ some j
    → q j ≡ true
    → find_where (λ x. x.id == k) (update_where (λ x. x.id == i && q x) f js) ≡ some (f j)
find_where-update_id k i q f js {j} same keys e t =
    rw
      (
        keys,
        find_where-update_where (λ x. x.id == k) (λ x. x.id == k && q x) f (λ x. rw (same x)) js,
        e,
      )
      (rw (find_where_self (λ x. x.id == k) js e, t) refl)
