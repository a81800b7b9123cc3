-- ===== src/Worker/Dispatch/Delivered.antt =====
-- dispatch.py: a job that awaits its dispatch and is due is handed to Celery by the next pass.
use nextballup.Prelude.{
  ℕ, ◌+◌, ◌≤◌, ◌≡◌, refl, ap, ◌∙◌, Bool, true, false, ◌&&◌, Option, none, some, List, [], ◌∷◌,
  arith, ◌==◌, ==→eq, inl, inr, Bool-cases, Option-cases, find_where_self, any_where,
  any_where-find_where, find_where-any_where, any_where-update_where, any_where-filter_where,
  length-filter_where, take_all, length, filter_where, leb, is_some, if◌then◌else◌,
}
use nextballup.Core.Enums.{ProcessingJobStage}
use nextballup.Db.{Db, ProcessingJob}
use nextballup.Worker.Jobs.{update_jobs}
use nextballup.Worker.Dispatch.{
  awaits_dispatch, dispatch_candidates, grace, with_task, record_dispatch, dispatch_job,
  dispatch_jobs, dispatch_pending_jobs, oldest_first, insert_oldest,
}
use nextballup.Worker.Dispatch.Once.{record_dispatch_jobs}

module _ (p : ProcessingJob → Bool) where
  any_where-insert_oldest :
      (j : ProcessingJob) (js : List ProcessingJob)
      → any_where p (insert_oldest j js) ≡ any_where p (j ∷ js)
  unfolding any_where insert_oldest
  any_where-insert_oldest j [] = refl
  any_where-insert_oldest j (i ∷ is) = ground (arith, any_where-insert_oldest j is)

  any_where-oldest_first :
      (js : List ProcessingJob) → any_where p (oldest_first js) ≡ any_where p js
  unfolding any_where oldest_first
  any_where-oldest_first [] = refl
  any_where-oldest_first (j ∷ js) =
      any_where-insert_oldest j (oldest_first js)
      ∙ ap (λ b. if p j then true else b) (any_where-oldest_first js)

length-insert_oldest :
    (j : ProcessingJob) (js : List ProcessingJob) → length (insert_oldest j js) ≤ length (j ∷ js)
unfolding insert_oldest
length-insert_oldest j [] = omega arith
length-insert_oldest j (i ∷ is) = ground (arith, length-insert_oldest j is)

length-oldest_first : (js : List ProcessingJob) → length (oldest_first js) ≤ length js
unfolding oldest_first
length-oldest_first [] = omega arith
length-oldest_first (j ∷ js) =
    omega (arith, length-oldest_first js, length-insert_oldest j (oldest_first js))

-- A limit that no table exceeds lets every due job through.
dispatch_candidates-any_where :
    (k interval limit : ℕ) (db : Db)
    → length db.jobs ≤ limit
    → any_where
        (λ j. (j.id == k) && (awaits_dispatch j && leb (j.created_at + grace interval) db.now))
        db.jobs
      ≡ true
    → any_where (λ j. j.id == k) (dispatch_candidates interval limit db) ≡ true
unfolding dispatch_candidates
dispatch_candidates-any_where k interval limit db fits there =
    let due : List ProcessingJob =
      filter_where (λ j. awaits_dispatch j && leb (j.created_at + grace interval) db.now) db.jobs in
    rw
      (take_all limit (oldest_first due) (
        omega (
          arith,
          length-oldest_first due,
          fits,
          length-filter_where (λ j. awaits_dispatch j && leb (j.created_at + grace interval) db.now)
              db.jobs,
        )))
      (any_where-oldest_first (λ j. j.id == k) due
        ∙ any_where-filter_where (λ j. j.id == k)
            (λ j. awaits_dispatch j && leb (j.created_at + grace interval) db.now) db.jobs there)

module _ (k : ℕ) where
  Waiting : Db → Type 0
  Waiting db = any_where (λ j. j.id == k && awaits_dispatch j) db.jobs ≡ true

  -- A waiting job that the broker takes counts as handed out.
  dispatch_job-Waiting :
      (job : ProcessingJob) (task : ℕ) (db : Db)
      → job.id ≡ k
      → Waiting db
      → (dispatch_job job (some task) db).0 ≡ true
  unfolding dispatch_job record_dispatch update_jobs Waiting
  dispatch_job-Waiting job task db same w =
      let found = find_where-any_where (λ j. j.id == k && awaits_dispatch j) db.jobs w in
      rw (same, found.1) refl

  -- The dispatch of another job leaves a waiting job waiting.
  dispatch_job-other :
      (job : ProcessingJob) (task : Option ℕ) (db : Db)
      → (job.id == k) ≡ false
      → Waiting db
      → Waiting (dispatch_job job task db).1
  unfolding dispatch_job update_jobs Waiting awaits_dispatch
  dispatch_job-other job none db other w = w
  dispatch_job-other job (some task) db other w =
      rw
        (record_dispatch_jobs job task
          (update_jobs (λ j. j.id == job.id && awaits_dispatch j) (with_task task) db))
        (any_where-update_where (λ j. j.id == k && awaits_dispatch j)
          (λ j. j.id == k && awaits_dispatch j) (λ j. j.id == job.id && awaits_dispatch j)
          (with_task task) (λ j t. ground arith) db.jobs w)

  dispatch_jobs-Waiting :
      (enqueue : ℕ → ProcessingJobStage → Option ℕ) (jobs : List ProcessingJob) (db : Db)
      → ((n : ℕ) (stage : ProcessingJobStage) → is_some (enqueue n stage) ≡ true)
      → any_where (λ j. j.id == k) jobs ≡ true
      → Waiting db
      → any_where (λ n. n == k) (dispatch_jobs enqueue (λ _ d. d) jobs db).0 ≡ true
  unfolding dispatch_jobs any_where
  dispatch_jobs-Waiting enqueue [] db takes there w = there
  dispatch_jobs-Waiting enqueue (job ∷ jobs) db takes there w = elim (Bool-cases (job.id == k)) [
    | inl same ↦ elim (Option-cases (enqueue job.id job.stage)) [
      | inl n ↦ absurd (cc (takes job.id job.stage, n))
      | inr (task, s) ↦ rw (s, dispatch_job-Waiting job task db (==→eq job.id k same) w, same) refl
    ]
    | inr other ↦
        let rest =
          dispatch_jobs-Waiting enqueue jobs (dispatch_job job (enqueue job.id job.stage) db).1
            takes (rw other at there)
            (dispatch_job-other job (enqueue job.id job.stage) db other w) in
        elim (Bool-cases (dispatch_job job (enqueue job.id job.stage) db).0) [
          | inl t ↦ rw (t, other) rest
          | inr f ↦ rw f rest
        ]
  ]

-- A pass with room for every job hands out a job that waits and is due.
pub dispatch_pending_jobs_due :
    (k interval limit : ℕ) (enqueue : ℕ → ProcessingJobStage → Option ℕ) (db : Db)
    → ((n : ℕ) (stage : ProcessingJobStage) → is_some (enqueue n stage) ≡ true)
    → length db.jobs ≤ limit
    → any_where
        (λ j. j.id == k && (awaits_dispatch j && leb (j.created_at + grace interval) db.now))
        db.jobs
      ≡ true
    → any_where (λ n. n == k) (dispatch_pending_jobs enqueue (λ _ d. d) interval limit db).0 ≡ true
unfolding dispatch_pending_jobs Waiting
dispatch_pending_jobs_due k interval limit enqueue db takes fits due =
    let row = find_where-any_where _ db.jobs due in
    dispatch_jobs-Waiting k enqueue (dispatch_candidates interval limit db) db takes
      (dispatch_candidates-any_where k interval limit db fits due)
      (any_where-find_where _ (λ j. j.id == k && awaits_dispatch j) db.jobs row.1
        (ground (arith, find_where_self _ db.jobs row.1)))
