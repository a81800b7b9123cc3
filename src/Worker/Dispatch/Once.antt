-- ===== src/Worker/Dispatch/Once.antt =====
-- dispatch.py: a job that is handed out is not handed out again, and the pass keeps the rows
-- well-formed.
use mathlib.Core.List.{Perm}
use mathlib.Core.List.Perm
use nextballup.Prelude.{
  ℕ, ◌++◌, ◌⊎◌, sym, subst, is_none, ◌+◌, ◌≤◌, ◌≡◌, refl, Bool, true, false, ◌&&◌, Option, none,
  some, List, [], ◌∷◌, arith, ◌==◌, inl, inr, Bool-cases, find_where, All, All-update_where,
  find_where-update_where_none, update_where_none, length, length-take, filter_where, leb, leb→le,
  ap, All-map,
}
use nextballup.Core.Enums.{ProcessingJobStage, ProcessingJobStatus, is_pending}
use nextballup.Prelude.Sort.{take_left}
use nextballup.Db.{Db, ProcessingJob, write_audit}
use nextballup.Worker.Jobs.{update_jobs}
use nextballup.Worker.Jobs.Invariant.{JobOk, JobsOk}
use nextballup.Worker.Dispatch.{
  awaits_dispatch, dispatch_candidates, grace, with_task, record_dispatch, dispatch_job,
  dispatch_jobs, dispatch_pending_jobs, oldest_first, insert_oldest,
}

pub record_dispatch_jobs :
    (job : ProcessingJob) (task : ℕ) (claim : Option ProcessingJob × Db)
    → (record_dispatch job task claim).1.jobs ≡ claim.1.jobs
unfolding record_dispatch write_audit
record_dispatch_jobs job task (none, db) = refl
record_dispatch_jobs job task (some j, db) = refl

update_jobs_none :
    (p : ProcessingJob → Bool) (f : ProcessingJob → ProcessingJob) (db : Db)
    → find_where p db.jobs ≡ none
    → update_jobs p f db ≡ (none, db)
unfolding update_jobs
update_jobs_none p f db n = rw (n, update_where_none p f db.jobs n) refl

dispatch_job_gone :
    (job : ProcessingJob) (task : Option ℕ) (db : Db)
    → find_where (λ j. j.id == job.id && awaits_dispatch j) db.jobs ≡ none
    → dispatch_job job task db ≡ (false, db)
unfolding dispatch_job record_dispatch
dispatch_job_gone job none db gone = refl
dispatch_job_gone job (some task) db gone =
    ap (record_dispatch job task)
      (update_jobs_none (λ j. j.id == job.id && awaits_dispatch j) (with_task task) db gone)

dispatch_job-gone :
    (job : ProcessingJob) (task : ℕ) (db : Db)
    → find_where (λ j. j.id == job.id && awaits_dispatch j) (dispatch_job job (some task) db).1.jobs
      ≡ none
unfolding dispatch_job awaits_dispatch update_jobs
dispatch_job-gone job task db =
    rw
      (record_dispatch_jobs job task
        (update_jobs (λ j. j.id == job.id && awaits_dispatch j) (with_task task) db))
      (find_where-update_where_none (λ j. j.id == job.id && awaits_dispatch j) (with_task task)
        (λ j t. ground arith) db.jobs)

-- After the broker has taken a job and its row was tried, a second attempt on the same job in that
-- state, with any answer of the broker, dispatches nothing and changes nothing.
pub dispatch_job_once :
    (job : ProcessingJob) (task : ℕ) (again : Option ℕ) (db : Db)
    → let sent = dispatch_job job (some task) db in dispatch_job job again sent.1 ≡ (false, sent.1)
dispatch_job_once job task again db =
    dispatch_job_gone job again (dispatch_job job (some task) db).1 (dispatch_job-gone job task db)

dispatch_job-JobsOk :
    (job : ProcessingJob) (task : Option ℕ) (db : Db)
    → JobsOk db
    → JobsOk (dispatch_job job task db).1
unfolding dispatch_job update_jobs awaits_dispatch
dispatch_job-JobsOk job none db h = h
dispatch_job-JobsOk job (some task) db h =
    rw
      (record_dispatch_jobs job task
        (update_jobs (λ j. j.id == job.id && awaits_dispatch j) (with_task task) db))
      (All-update_where JobOk _ _ (λ j taken v. ground arith) db.jobs h)

module _ (enqueue : ℕ → ProcessingJobStage → Option ℕ) (elsewhere : ℕ → Db → Db)
    (others : (n : ℕ) (d : Db) → JobsOk d → JobsOk (elsewhere n d)) where
  dispatch_jobs-JobsOk :
      (jobs : List ProcessingJob) (db : Db)
      → JobsOk db
      → JobsOk (dispatch_jobs enqueue elsewhere jobs db).1
  unfolding dispatch_jobs
  dispatch_jobs-JobsOk [] db h = h
  dispatch_jobs-JobsOk (job ∷ jobs) db h = dispatch_jobs-JobsOk jobs _ (
      dispatch_job-JobsOk job (enqueue job.id job.stage) (elsewhere job.id db) (others job.id db h))

-- A dispatch pass keeps the rows of the jobs well-formed, whatever the broker answers and whatever
-- other sessions commit between its rows, as long as they keep them well-formed.
dispatch_pending_jobs-JobsOk :
    (enqueue : ℕ → ProcessingJobStage → Option ℕ) (elsewhere : ℕ → Db → Db) (interval limit : ℕ)
    (db : Db)
    → ((n : ℕ) (d : Db) → JobsOk d → JobsOk (elsewhere n d))
    → JobsOk db
    → JobsOk (dispatch_pending_jobs enqueue elsewhere interval limit db).1
unfolding dispatch_pending_jobs
dispatch_pending_jobs-JobsOk enqueue elsewhere interval limit db others h =
    dispatch_jobs-JobsOk enqueue elsewhere others (dispatch_candidates interval limit db) db h

insert_oldest-All :
    (P : ProcessingJob → Type 0) (j : ProcessingJob) (js : List ProcessingJob)
    → P j
    → All P js
    → All P (insert_oldest j js)
unfolding insert_oldest
insert_oldest-All P j [] h hs = (h, tt)
insert_oldest-All P j (i ∷ is) h hs = elim (Bool-cases (leb j.created_at i.created_at)) [
  | inl t ↦ rw t (h, hs)
  | inr f ↦ rw f (hs.0, insert_oldest-All P j is h hs.1)
]

-- The jobs in the order of their creation, the oldest first.
pub OldestFirst : List ProcessingJob → Type 0
OldestFirst [] = Unit
OldestFirst (j ∷ js) = All (λ i. j.created_at ≤ i.created_at) js × OldestFirst js

All-later :
    (m n : ℕ) (js : List ProcessingJob)
    → m ≤ n
    → All (λ i. n ≤ i.created_at) js
    → All (λ i. m ≤ i.created_at) js
All-later m n js le h = All-map _ _ (λ i k. omega (arith, le, k)) js h

insert_oldest-OldestFirst :
    (j : ProcessingJob) (js : List ProcessingJob)
    → OldestFirst js
    → OldestFirst (insert_oldest j js)
unfolding insert_oldest OldestFirst
insert_oldest-OldestFirst j [] h = (tt, tt)
insert_oldest-OldestFirst j (i ∷ is) h = elim (Bool-cases (leb j.created_at i.created_at)) [
  | inl t ↦ rw t ((leb→le _ _ t, All-later j.created_at i.created_at is (leb→le _ _ t) h.0), h)
  | inr f ↦ rw f (
    insert_oldest-All (λ k. i.created_at ≤ k.created_at) j is (ground arith) h.0,
    insert_oldest-OldestFirst j is h.1,
  )
]

oldest_first-OldestFirst : (js : List ProcessingJob) → OldestFirst (oldest_first js)
unfolding oldest_first OldestFirst
oldest_first-OldestFirst [] = tt
oldest_first-OldestFirst (j ∷ js) =
    insert_oldest-OldestFirst j (oldest_first js) (oldest_first-OldestFirst js)

insert_oldest-perm :
    (j : ProcessingJob) (js : List ProcessingJob) → Perm (insert_oldest j js) (j ∷ js)
unfolding insert_oldest
insert_oldest-perm j [] = Perm.refl (j ∷ [])
insert_oldest-perm j (i ∷ is) = elim (Bool-cases (leb j.created_at i.created_at)) [
  | inl t ↦ rw t (Perm.refl (j ∷ i ∷ is))
  | inr n ↦ rw n (Perm.trans (Perm.cons i (insert_oldest-perm j is)) (Perm.swap j i is))
]

oldest_first-perm : (js : List ProcessingJob) → Perm (oldest_first js) js
unfolding oldest_first
oldest_first-perm [] = Perm.refl []
oldest_first-perm (j ∷ js) =
    Perm.trans (insert_oldest-perm j (oldest_first js)) (Perm.cons j (oldest_first-perm js))

-- A job that a pass may hand out: it is pending, has no Celery task and was created `wait` ago.
abbrev pub is_unclaimed : ProcessingJobStatus → Option ℕ → Bool
is_unclaimed ProcessingJobStatus.pending none = true
is_unclaimed _ _ = false

abbrev pub is_due : ℕ → ℕ → ProcessingJob → Bool
is_due wait now j = is_unclaimed j.status j.celery_task_id && leb (j.created_at + wait) now

filter_where-same :
    (p q : ProcessingJob → Bool) (js : List ProcessingJob)
    → ((j : ProcessingJob) → p j ≡ q j)
    → filter_where p js ≡ filter_where q js
unfolding filter_where
filter_where-same p q [] h = refl
filter_where-same p q (j ∷ js) h = rw (h j, filter_where-same p q js h) refl

awaits_dispatch-is_due :
    (wait now : ℕ) (j : ProcessingJob)
    → (awaits_dispatch j && leb (j.created_at + wait) now) ≡ is_due wait now j
unfolding awaits_dispatch
awaits_dispatch-is_due wait now j = rw (by_cases j.status j.celery_task_id) refl
  where
    by_cases :
        (s : ProcessingJobStatus) (t : Option ℕ) → (is_pending s && is_none t) ≡ is_unclaimed s t
    by_cases ProcessingJobStatus.pending none = refl
    by_cases ProcessingJobStatus.pending (some _) = refl
    by_cases ProcessingJobStatus.running t = refl
    by_cases ProcessingJobStatus.completed t = refl
    by_cases ProcessingJobStatus.failed t = refl

grace-bounds : (interval : ℕ) → (1 ≤ grace interval) × (grace interval ≤ 5)
unfolding grace
grace-bounds interval = ground arith

-- A pass takes the oldest of the jobs that are due, up to `limit`: its rows and those that it leaves are
-- together exactly the due jobs, the oldest first, and it leaves some only if it took `limit`. A job is due
-- when it is pending, has no Celery task and is older than the grace period, which is one second at least
-- and five at most.
pub dispatch_candidates_lem :
    (interval limit : ℕ) (db : Db)
    → let rows = dispatch_candidates interval limit db in
      (left : List ProcessingJob) × (wait : ℕ) × (1 ≤ wait)
      × (wait ≤ 5)
      × Perm (rows ++ left) (filter_where (is_due wait db.now) db.jobs)
      × OldestFirst (rows ++ left)
      × (length rows ≤ limit)
      × ((left ≡ []) ⊎ (length rows ≡ limit))
unfolding dispatch_candidates
dispatch_candidates_lem interval limit db =
    let wait = grace interval in
    let due = filter_where (λ j. awaits_dispatch j && leb (j.created_at + wait) db.now) db.jobs in
    let same =
      filter_where-same (λ j. awaits_dispatch j && leb (j.created_at + wait) db.now)
        (is_due wait db.now) db.jobs (awaits_dispatch-is_due wait db.now) in
    let (left, whole, full) = take_left limit (oldest_first due) in
    let bounds = grace-bounds interval in
    (
      left,
      wait,
      bounds.0,
      bounds.1,
      subst (λ js. Perm js (filter_where (is_due wait db.now) db.jobs)) (sym whole)
          (subst (Perm (oldest_first due)) same (oldest_first-perm due)),
      subst OldestFirst (sym whole) (oldest_first-OldestFirst due),
      length-take limit (oldest_first due),
      full,
    )
