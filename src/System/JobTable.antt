-- ===== src/System/JobTable.antt =====
-- A change of `processing_jobs` that follows the life of a job: what it keeps.
use mathlib.Core.Option
use nextballup.Prelude.{
  ◌&&◌, ◌||◌, Option-cases, ℕ, ◌≡◌, refl, ap, ◌∙◌, subst, Bool, true, false, Option, none, some,
  List, [], ◌∷◌, ◌++◌, arith, ◌==◌, inl, inr, Bool-cases, find_where, update_where,
  find_where-append, find_where-append_none, find_where-update_where, find_where-All,
  any_where-find_where, find_where-any_where, All, All-append, if◌then◌else◌,
}
use nextballup.Core.Enums.{ProcessingJobStage, ProcessingJobStatus, stage_eq, is_pending}
use nextballup.Db.{ProcessingJob}
use nextballup.Worker.Jobs.Row.{UniqueIds, KeepsIdentity, update_where-UniqueIds}
use nextballup.Worker.Jobs.Invariant.{JobOk}

-- The life of a job: it is claimed, and completes, fails or goes back; a pending job can fail; a
-- failed job can be requeued; a completed one stays.
unfoldable pub may_move : ProcessingJobStatus → ProcessingJobStatus → Bool
may_move ProcessingJobStatus.pending ProcessingJobStatus.completed = false
may_move ProcessingJobStatus.failed ProcessingJobStatus.running = false
may_move ProcessingJobStatus.failed ProcessingJobStatus.completed = false
may_move ProcessingJobStatus.completed ProcessingJobStatus.pending = false
may_move ProcessingJobStatus.completed ProcessingJobStatus.running = false
may_move ProcessingJobStatus.completed ProcessingJobStatus.failed = false
may_move _ _ = true

-- Only a demo preview may take a job another way, and only one of the events stage.
abbrev pub is_free : Bool → ProcessingJobStage → Bool
is_free preview stage = preview && stage_eq stage ProcessingJobStage.events

abbrev pub can_move : Bool → ProcessingJob → ProcessingJob → Bool
can_move preview j j' = is_free preview j.stage || may_move j.status j'.status

abbrev pub can_start : Bool → ProcessingJob → Bool
can_start preview j = is_free preview j.stage || is_pending j.status

-- A row before and after an update that follows the life of a job.
pub record Legal (preview : Bool) (j j' : ProcessingJob) : Type 0 where
  pub moves : can_move preview j j' ≡ true
  pub sound : JobOk j → JobOk j'

-- One transaction on the table.
pub data JobChange (preview : Bool) (js : List ProcessingJob) : List ProcessingJob → Type 0 where
  same : JobChange preview js js
  updated :
      (p : ProcessingJob → Bool) (f : ProcessingJob → ProcessingJob)
      → KeepsIdentity f
      → All (λ j. p j ≡ true → Legal preview j (f j)) js
      → JobChange preview js (update_where p f js)
  added :
      (j : ProcessingJob)
      → can_start preview j ≡ true
      → JobOk j
      → find_where (λ i. i.id == j.id) js ≡ none
      → JobChange preview js (js ++ (j ∷ []))

abbrev pub row_of : ℕ → List ProcessingJob → Option ProcessingJob
row_of k js = find_where (λ j. j.id == k) js

can_move_refl : (preview : Bool) (j : ProcessingJob) → can_move preview j j ≡ true
unfolding may_move
can_move_refl preview j = elim (Bool-cases (is_free preview j.stage)) [
  | inl t ↦ rw t refl
  | inr n ↦ rw n (own j.status)
]
  where
    own : (s : ProcessingJobStatus) → may_move s s ≡ true
    own ProcessingJobStatus.pending = refl
    own ProcessingJobStatus.running = refl
    own ProcessingJobStatus.completed = refl
    own ProcessingJobStatus.failed = refl

-- What one transaction may do to a row: nothing is lost, its stage stays, and it moves a step of its life.
abbrev pub Allowed : Bool → Option ProcessingJob → Option ProcessingJob → Type 0
Allowed preview none none = Unit
Allowed preview none (some j) = can_start preview j ≡ true
Allowed preview (some i) none = true ≡ false
Allowed preview (some i) (some j) = (j.stage ≡ i.stage) × (can_move preview i j ≡ true)

-- A row that is there is there afterwards, a step of its life on.
pub JobChange-row :
    (k : ℕ) {preview : Bool} {js js' : List ProcessingJob} {j : ProcessingJob}
    → JobChange preview js js'
    → row_of k js ≡ some j
    → (j' : ProcessingJob) × ((row_of k js' ≡ some j')
        × ((j'.stage ≡ j.stage) × (can_move preview j j' ≡ true)))
JobChange-row k {preview} {js} {j} JobChange.same e = (j, (e, (refl, can_move_refl preview j)))
JobChange-row k {preview} {js} {j} (JobChange.updated p f keeps legal) e =
    let moved : row_of k (update_where p f js) ≡ some (if p j then f j else j) =
      find_where-update_where (λ i. i.id == k) p f (λ i. rw (keeps.same_id i)) js
      ∙ ap (Option.map (λ i. if p i then f i else i)) e in
    elim (Bool-cases (p j)) [
      | inl t ↦ (
        f j,
        (
          rw t at moved,
          (keeps.same_stage j, ((find_where-All _ (λ i. i.id == k) js legal e).1 t).moves),
        ),
      )
      | inr n ↦ (j, (rw n at moved, (refl, can_move_refl preview j)))
    ]
JobChange-row k {preview} {js} {j} (JobChange.added new _ _ _) e =
    (j, (find_where-append (λ i. i.id == k) js (new ∷ []) e, (refl, can_move_refl preview j)))

-- A row that was not there is new, and starts its life.
JobChange-new :
    (k : ℕ) {preview : Bool} {js js' : List ProcessingJob} {j : ProcessingJob}
    → JobChange preview js js'
    → row_of k js ≡ none
    → row_of k js' ≡ some j
    → can_start preview j ≡ true
unfolding find_where
JobChange-new k JobChange.same n e = absurd (cc (n, e))
JobChange-new k {preview} {js} (JobChange.updated p f keeps _) n e = absurd (
    cc (
      find_where-update_where (λ i. i.id == k) p f (λ i. rw (keeps.same_id i)) js
          ∙ ap (Option.map (λ i. if p i then f i else i)) n,
      e,
    ))
JobChange-new k {preview} {js} {j} (JobChange.added new starts _ _) n e =
    let last = rw (find_where-append_none (λ i. i.id == k) js (new ∷ []) n) at e in
    elim (Bool-cases (new.id == k)) [
      | inl t ↦ rw (← (Option.some-injective new j (rw t at last))) starts
      | inr f ↦ absurd (cc (rw f at last))
    ]

pub JobChange-Allowed :
    (k : ℕ) {preview : Bool} {js js' : List ProcessingJob}
    → JobChange preview js js'
    → Allowed preview (row_of k js) (row_of k js')
JobChange-Allowed k {preview} {js} {js'} change = elim (Option-cases (row_of k js)) [
  | inr (j, e) ↦ let next = JobChange-row k change e in rw (e, next.1.0) next.1.1
  | inl n ↦ elim (Option-cases (row_of k js')) [
    | inl m ↦ rw (n, m) tt
    | inr (j, e) ↦ rw (n, e) (JobChange-new k change n e)
  ]
]

append-UniqueIds :
    (new : ProcessingJob) (js : List ProcessingJob)
    → find_where (λ i. i.id == new.id) js ≡ none
    → UniqueIds js
    → UniqueIds (js ++ (new ∷ []))
unfolding find_where
append-UniqueIds new [] fresh u = (refl, tt)
append-UniqueIds new (j ∷ js) fresh u = elim (Bool-cases (j.id == new.id)) [
  | inl t ↦ absurd (cc (rw t at fresh))
  | inr n ↦
      let other : (new.id == j.id) ≡ false = ground (arith, n) in
      (
        find_where-append_none (λ i. i.id == j.id) js (new ∷ []) u.0 ∙ rw other refl,
        append-UniqueIds new js (rw n at fresh) u.1,
      )
]

-- The primary key holds on.
pub JobChange-UniqueIds :
    {preview : Bool} {js js' : List ProcessingJob}
    → JobChange preview js js'
    → UniqueIds js
    → UniqueIds js'
JobChange-UniqueIds JobChange.same u = u
JobChange-UniqueIds {preview} {js} (JobChange.updated p f keeps _) u =
    update_where-UniqueIds p f keeps js u
JobChange-UniqueIds {preview} {js} (JobChange.added new _ _ fresh) u =
    append-UniqueIds new js fresh u

update_where-JobOk :
    (preview : Bool) (p : ProcessingJob → Bool) (f : ProcessingJob → ProcessingJob)
    (js : List ProcessingJob)
    → All (λ j. p j ≡ true → Legal preview j (f j)) js
    → All JobOk js
    → All JobOk (update_where p f js)
unfolding update_where
update_where-JobOk preview p f [] legal h = tt
update_where-JobOk preview p f (j ∷ js) legal h = elim (Bool-cases (p j)) [
  | inl t ↦ rw t ((legal.0 t).sound h.0, update_where-JobOk preview p f js legal.1 h.1)
  | inr n ↦ rw n (h.0, update_where-JobOk preview p f js legal.1 h.1)
]

-- Well-formed rows stay well-formed.
pub JobChange-JobOk :
    {preview : Bool} {js js' : List ProcessingJob}
    → JobChange preview js js'
    → All JobOk js
    → All JobOk js'
JobChange-JobOk JobChange.same h = h
JobChange-JobOk {preview} {js} (JobChange.updated p f _ legal) h =
    update_where-JobOk preview p f js legal h
JobChange-JobOk {preview} {js} (JobChange.added new _ good _) h =
    All-append JobOk js (new ∷ []) h (good, tt)

find_where_none-All :
    (p : ProcessingJob → Bool) (Q : ProcessingJob → Type 0) (js : List ProcessingJob)
    → find_where p js ≡ none
    → All (λ j. p j ≡ true → Q j) js
unfolding find_where
find_where_none-All p Q [] n = tt
find_where_none-All p Q (j ∷ js) n = elim (Bool-cases (p j)) [
  | inl t ↦ absurd (cc (rw t at n))
  | inr f ↦ ((λ t. absurd (cc (t, f))), find_where_none-All p Q js (rw f at n))
]

-- With the primary key, the rows that share the id of a row that was found are that row.
pub same_row :
    (q : ProcessingJob → Bool) (js : List ProcessingJob) {job : ProcessingJob}
    → UniqueIds js
    → find_where q js ≡ some job
    → All (λ j. (j.id == job.id) ≡ true → j ≡ job) js
unfolding find_where
same_row q [] u e = tt
same_row q (x ∷ xs) {job} u e = elim (Bool-cases (q x)) [
  | inl t ↦
      let first : x ≡ job = Option.some-injective x job (rw t at e) in
      (
        (λ _. first),
        subst (λ y. All (λ j. (j.id == y.id) ≡ true → j ≡ y) xs) first
            (find_where_none-All (λ j. j.id == x.id) (λ j. j ≡ x) xs u.0),
      )
  | inr f ↦
      let found = rw f at e in
      (
        (λ t. absurd (
            cc (
              (find_where-any_where (λ j. j.id == x.id) xs
                  (any_where-find_where q (λ j. j.id == x.id) xs found (ground (arith, t)))).1,
              u.0,
            ))),
        same_row q xs u.1 found,
      )
]
