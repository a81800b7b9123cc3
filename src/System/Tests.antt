-- ===== src/System/Tests.antt =====
-- The theorems on the system, at small runs.
use nextballup.Prelude.{◌≡◌, refl, none, some, find_where, update_where}
use nextballup.Core.Enums.{ProcessingJobStatus}
use nextballup.Db.{Db, ProcessingJob}
use nextballup.Worker.Tests.{store, store-JobsOk, running_job}
use nextballup.Worker.Jobs.{claim_job, complete_job}
use nextballup.Worker.Jobs.Invariant.{JobsOk}
use nextballup.Worker.Jobs.Laws.{WorkerOp, run_op}
use nextballup.Worker.Jobs.Row.{UniqueIds}
use nextballup.Worker.Recovery.{recover_job}
use nextballup.System.{Step, Steps}
use nextballup.System.JobTable.{row_of}
use nextballup.System.Lifecycle.{Refines, Steps-JobsOk, Steps-Refines, Steps_completed}

-- The waiting job 8 is claimed by task 3 and completed, and then the stale job 5 is recovered.
abbrev claimed : Db
claimed = run_op (WorkerOp.claim 8 (some 3)) store

abbrev completed : Db
completed = run_op (WorkerOp.complete 8 none (some 3)) claimed

abbrev recovered : Db
recovered = recover_job running_job completed

abbrev a_run : Steps store recovered
a_run = Steps.onward (Step.worker (WorkerOp.claim 8 (some 3)) store) (
    Steps.onward (Step.worker (WorkerOp.complete 8 none (some 3)) claimed)
      (Steps.onward (Step.recovered running_job completed) Steps.done))

abbrev late_run : Steps completed recovered
late_run = Steps.onward (Step.recovered running_job completed) Steps.done

store-UniqueIds : UniqueIds store.jobs
unfolding find_where
store-UniqueIds = (refl, (refl, (refl, tt)))

completed-UniqueIds : UniqueIds completed.jobs
completed-UniqueIds = (Steps-JobsOk a_short_run store-UniqueIds store-JobsOk).0
  where
    a_short_run : Steps store completed
    a_short_run =
        Steps.onward (Step.worker (WorkerOp.claim 8 (some 3)) store)
          (Steps.onward (Step.worker (WorkerOp.complete 8 none (some 3)) claimed) Steps.done)

Steps-JobsOk_example : UniqueIds recovered.jobs × JobsOk recovered
Steps-JobsOk_example = Steps-JobsOk a_run store-UniqueIds store-JobsOk

Steps-Refines_example : Refines 8 a_run
Steps-Refines_example = Steps-Refines a_run store-UniqueIds 8

Steps_completed_example :
    (j' : ProcessingJob) × ((row_of 8 recovered.jobs ≡ some j')
      × (j'.status ≡ ProcessingJobStatus.completed))
unfolding find_where update_where run_op complete_job claim_job
Steps_completed_example = Steps_completed 8 late_run completed-UniqueIds refl refl refl
