-- ===== src/Worker/Tests/Passes.antt =====
-- The theorems on the stages, the artifacts, the dispatch and the recovery, at a small database.
use mathlib.Core.List.{Perm}
use nextballup.Prelude.{ℕ, List, [], ◌++◌, ◌⊎◌, filter_where, ◌≤◌, ◌≡◌, false, some, arith, length}
use nextballup.Core.Enums.{ProcessingJobStage}
use nextballup.Worker.CvStages.{queue_next_stage_if_enabled}
use nextballup.Worker.CvStages.Order.{
  count_stage, OneJobPerStage, queue_next_stage_if_enabled-OneJobPerStage,
}
use nextballup.Worker.CvArtifacts.{entitled, active_artifact_for_stage}
use nextballup.Worker.CvArtifacts.Entitlement.{BestOf, active_artifact_for_stage-BestOf}
use nextballup.Worker.Failure.{claimed_job_still_active}
use nextballup.Worker.Dispatch.{dispatch_candidates}
use nextballup.Db.{ProcessingJob}
use nextballup.Worker.Dispatch.Once.{is_due, OldestFirst, dispatch_candidates_lem}
use nextballup.Worker.Recovery.{recover_job}
use nextballup.Worker.Recovery.Revoked.{recover_job_revokes}
use nextballup.Worker.Tests.{film, running_job, store, settings}

store-OneJobPerStage : OneJobPerStage store.jobs
unfolding OneJobPerStage count_stage
store-OneJobPerStage v s = ground arith

queue_next_stage_if_enabled-OneJobPerStage_example :
    OneJobPerStage
      (queue_next_stage_if_enabled film ProcessingJobStage.transcode settings 20 store).1.jobs
queue_next_stage_if_enabled-OneJobPerStage_example =
    queue_next_stage_if_enabled-OneJobPerStage film ProcessingJobStage.transcode settings 20 store
      store-OneJobPerStage

active_artifact_for_stage-BestOf_example :
    BestOf
      (entitled ProcessingJobStage.detection 2)
      store.artifacts
      (active_artifact_for_stage ProcessingJobStage.detection 2 store)
active_artifact_for_stage-BestOf_example =
    active_artifact_for_stage-BestOf ProcessingJobStage.detection 2 store

dispatch_candidates_lem_example :
    let rows = dispatch_candidates 10 100 store in
    (left : List ProcessingJob) × (wait : ℕ) × (1 ≤ wait)
    × (wait ≤ 5)
    × Perm (rows ++ left) (filter_where (is_due wait 100) store.jobs)
    × OldestFirst (rows ++ left)
    × (length rows ≤ 100)
    × ((left ≡ []) ⊎ (length rows ≡ 100))
dispatch_candidates_lem_example = dispatch_candidates_lem 10 100 store

recover_job_revokes_example :
    claimed_job_still_active 5 (some 9) (recover_job running_job store) ≡ false
recover_job_revokes_example = recover_job_revokes running_job (some 9) store
