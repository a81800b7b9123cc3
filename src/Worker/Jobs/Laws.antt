-- ===== src/Worker/Jobs/Laws.antt =====
-- The safety of the transitions under repeated and late delivery, for every sequence of them.
use nextballup.Prelude.{
  ℕ, ◌≤◌, ◌≡◌, refl, Bool, false, ◌&&◌, Option, none, some, List, [], ◌∷◌, arith, ◌==◌, or_else,
  find_where-update_where, find_where-update_where_none, update_where_none,
}
use nextballup.Core.Text.{Text}
use nextballup.Core.Enums.{ProcessingJobStatus, is_pending, is_running, is_open}
use nextballup.Core.Errors.{ErrorCode}
use nextballup.Core.Json.{Fields}
use nextballup.Db.{Db, ProcessingJob}
use nextballup.Worker.Jobs.{
  owned_by, claim_values, claim_job, touch_heartbeat, complete_job, fail_job, release_job_for_retry,
  get_job, update_jobs,
}
use nextballup.Worker.Jobs.Invariant.{
  JobsOk, claim_job-JobsOk, touch_heartbeat-JobsOk, complete_job-JobsOk, fail_job-JobsOk,
  release_job_for_retry-JobsOk,
}

-- A delivery of the same job after a claim claims nothing and changes nothing, whichever task it is.
pub claim_job_once :
    (job_id : ℕ) (first second : Option ℕ) (db : Db)
    → claim_job job_id second (claim_job job_id first db).1 ≡ (none, (claim_job job_id first db).1)
unfolding claim_job
claim_job_once job_id first second db =
    let gone =
      find_where-update_where_none (λ j. j.id == job_id && is_pending j.status)
        (claim_values first db.now) (λ j t. ground arith) db.jobs in
    rw (gone, update_where_none _ (claim_values second db.now) _ gone)

-- One transition of the worker's runtime; a heartbeat reports at most 100 per cent.
pub data WorkerOp : Type 0 where
  claim : ℕ → Option ℕ → WorkerOp
  touch : (job_id : ℕ) (progress task : Option ℕ) → or_else progress 0 ≤ 100 → WorkerOp
  complete : ℕ → Option Fields → Option ℕ → WorkerOp
  fail : ℕ → ErrorCode → Text → Option Fields → WorkerOp
  release : ℕ → Option Fields → WorkerOp

unfoldable pub run_op : WorkerOp → Db → Db
run_op (WorkerOp.claim k t) db = (claim_job k t db).1
run_op (WorkerOp.touch k p t _) db = touch_heartbeat k p t db
run_op (WorkerOp.complete k m t) db = (complete_job k m t db).1
run_op (WorkerOp.fail k c e m) db = (fail_job k c e m db).1
run_op (WorkerOp.release k m) db = (release_job_for_retry k m db).1

pub run_ops : List WorkerOp → Db → Db
run_ops [] db = db
run_ops (op ∷ ops) db = run_ops ops (run_op op db)

run_op-JobsOk : (op : WorkerOp) (db : Db) → JobsOk db → JobsOk (run_op op db)
unfolding run_op
run_op-JobsOk (WorkerOp.claim k t) db h = claim_job-JobsOk k t db h
run_op-JobsOk (WorkerOp.touch k p t small) db h = touch_heartbeat-JobsOk k p t db small h
run_op-JobsOk (WorkerOp.complete k m t) db h = complete_job-JobsOk k m t db h
run_op-JobsOk (WorkerOp.fail k c e m) db h = fail_job-JobsOk k c e m db h
run_op-JobsOk (WorkerOp.release k m) db h = release_job_for_retry-JobsOk k m db h

-- From well-formed rows, whatever the workers run, in any order and with any task ids, every row
-- stays well-formed: a running job has a start and a heartbeat, a completed one is at 100 with no
-- error, a failed one is dated and explained, and no message is longer than its column.
pub run_ops-JobsOk : (ops : List WorkerOp) (db : Db) → JobsOk db → JobsOk (run_ops ops db)
unfolding run_ops
run_ops-JobsOk [] db h = h
run_ops-JobsOk (op ∷ ops) db h = run_ops-JobsOk ops (run_op op db) (run_op-JobsOk op db h)

-- An UPDATE whose condition fails on the row with id k leaves that row alone.
module _ (q : ProcessingJob → Bool) (f : ProcessingJob → ProcessingJob) where
  get_job-update :
      ((j : ProcessingJob) → (f j).id ≡ j.id)
      → (k : ℕ) (db : Db) {j : ProcessingJob} → get_job k db ≡ some j
      → q j ≡ false
      → get_job k (update_jobs q f db).1 ≡ some j
  unfolding get_job update_jobs
  get_job-update same k db {j} e n =
      rw (find_where-update_where (λ j. j.id == k) q f (λ j. rw (same j)) db.jobs) (rw e (rw n))

is_open-false :
    (s : ProcessingJobStatus) → is_open s ≡ false → (is_pending s ≡ false) × (is_running s ≡ false)
is_open-false s h = ground arith

and_false : (a b : Bool) → b ≡ false → (a && b) ≡ false
and_false a b h = ground arith

and3_false : (a b c : Bool) → b ≡ false → (a && (b && c)) ≡ false
and3_false a b c h = ground arith

pub run_op_terminal :
    (op : WorkerOp) (k : ℕ) (db : Db) {j : ProcessingJob}
    → get_job k db ≡ some j
    → is_open j.status ≡ false
    → get_job k (run_op op db) ≡ some j
unfolding run_op claim_job touch_heartbeat complete_job fail_job release_job_for_retry
run_op_terminal (WorkerOp.claim i t) k db {j} e o =
    get_job-update _ _ (λ j. refl) k db e (and_false (j.id == i) _ (is_open-false j.status o).0)
run_op_terminal (WorkerOp.touch i p t _) k db {j} e o =
    get_job-update _ _ (λ j. refl) k db e
      (and3_false (j.id == i) _ (owned_by t j) (is_open-false j.status o).1)
run_op_terminal (WorkerOp.complete i m t) k db {j} e o =
    get_job-update _ _ (λ j. refl) k db e
      (and3_false (j.id == i) _ (owned_by t j) (is_open-false j.status o).1)
run_op_terminal (WorkerOp.fail i c x m) k db {j} e o =
    get_job-update _ _ (λ j. refl) k db e (and_false (j.id == i) _ o)
run_op_terminal (WorkerOp.release i m) k db {j} e o =
    get_job-update _ _ (λ j. refl) k db e (and_false (j.id == i) _ (is_open-false j.status o).1)

-- A completed or failed job is final for the transitions of jobs.py: no sequence of their transitions, for this
-- job or others, changes any field of its row.
pub run_ops_terminal :
    (ops : List WorkerOp) (k : ℕ) (db : Db) {j : ProcessingJob}
    → get_job k db ≡ some j
    → is_open j.status ≡ false
    → get_job k (run_ops ops db) ≡ some j
unfolding run_ops
run_ops_terminal [] k db e o = e
run_ops_terminal (op ∷ ops) k db e o =
    run_ops_terminal ops k (run_op op db) (run_op_terminal op k db e o) o
