-- ===== src/System/Lifecycle.antt =====
-- The system against the life of a single job: every transaction of a run moves every row by one step of
-- the life of a job at most, and every row stays well-formed.
use nextballup.Prelude.{ℕ, ◌≡◌, Bool, true, false, arith, some}
use nextballup.Core.Enums.{ProcessingJobStage, ProcessingJobStatus, stage_eq}
use nextballup.Db.{Db, ProcessingJob}
use nextballup.Worker.Jobs.Row.{UniqueIds}
use nextballup.Worker.Jobs.Invariant.{JobsOk}
use nextballup.System.{Steps, is_preview}
use nextballup.System.JobTable.{
  may_move, can_move, row_of, Allowed, JobChange-row, JobChange-Allowed, JobChange-UniqueIds,
  JobChange-JobOk,
}
use nextballup.System.Effects.{Step-JobChange}

-- From a state with the primary key and well-formed rows, every run of the steps of the system keeps
-- both: no two rows of the jobs have one id, a running job has a start
-- and a heartbeat, a completed one is at 100 with no error, a failed one is dated and explained.
pub Steps-JobsOk :
    {db after : Db}
    → Steps db after
    → UniqueIds db.jobs
    → JobsOk db
    → UniqueIds after.jobs × JobsOk after
Steps-JobsOk Steps.done u h = (u, h)
Steps-JobsOk (Steps.onward step rest) u h =
    let change = Step-JobChange step u in
    Steps-JobsOk rest (JobChange-UniqueIds change u) (JobChange-JobOk change h)

-- A run implements the life of the job with the id k: each of its transactions does to that row what the
-- life allows.
unfoldable pub Refines : ℕ → {db after : Db} → Steps db after → Type 0
Refines k Steps.done = Unit
Refines k (Steps.onward {db} {next} step rest) =
    Allowed (is_preview step) (row_of k db.jobs) (row_of k next.jobs) × Refines k rest

-- The API and the worker together implement the life of every job: over every run of the steps of the
-- system (the deletion of a video is none), in any order, from a state with the primary key, each
-- transaction keeps the row of a job and its stage, and either leaves the status or takes one step of its
-- life (a pending job is claimed or fails, a running one completes, fails or goes back to pending, a failed
-- one goes back to pending); a row that appears is pending. Only a demo preview may move or start a job of
-- the events stage another way.
pub Steps-Refines :
    {db after : Db} (steps : Steps db after) → UniqueIds db.jobs → (k : ℕ) → Refines k steps
unfolding Refines
Steps-Refines Steps.done u k = tt
Steps-Refines (Steps.onward step rest) u k =
    let change = Step-JobChange step u in
    (JobChange-Allowed k change, Steps-Refines rest (JobChange-UniqueIds change u) k)

completed_move :
    (preview : Bool) (i j : ProcessingJob)
    → stage_eq i.stage ProcessingJobStage.events ≡ false
    → can_move preview i j ≡ true
    → i.status ≡ ProcessingJobStatus.completed
    → j.status ≡ ProcessingJobStatus.completed
unfolding may_move
completed_move true i j other move e = let m = rw (other, e) at move in ground arith
completed_move false i j other move e = ground arith

-- A completed job of any stage but events is completed for good: it is so after every run of the steps of
-- the system, in any order, from a state with the primary key. The deletion of its video is no step, and
-- a job of the events stage can be run anew by a demo preview.
pub Steps_completed :
    (k : ℕ) {db after : Db} {j : ProcessingJob}
    → Steps db after
    → UniqueIds db.jobs
    → row_of k db.jobs ≡ some j
    → stage_eq j.stage ProcessingJobStage.events ≡ false
    → j.status ≡ ProcessingJobStatus.completed
    → (j' : ProcessingJob) × ((row_of k after.jobs ≡ some j')
        × (j'.status ≡ ProcessingJobStatus.completed))
Steps_completed k {j} Steps.done u e other finished = (j, (e, finished))
Steps_completed k {j} (Steps.onward step rest) u e other finished =
    let change = Step-JobChange step u in
    let next = JobChange-row k change e in
    Steps_completed k rest (JobChange-UniqueIds change u) next.1.0 (rw (next.1.1.0) other)
      (completed_move (is_preview step) j next.0 other next.1.1.1 finished)
