-- ===== src/Worker/Tests/Runs.antt =====
-- The theorems on the transitions and the runs, at a small database.
use nextballup.Prelude.{◌≡◌, refl, none, some, List, [], ◌∷◌, arith, inr, find_where}
use nextballup.Core.Text.{codes}
use nextballup.Core.Enums.{ProcessingJobStatus}
use nextballup.Core.Errors.{ErrorCode}
use nextballup.Core.Json.{Fields}
use nextballup.Worker.Errors.{ProcessingFailure}
use nextballup.Worker.Jobs.{claim_job, get_job}
use nextballup.Worker.Jobs.Row.{UniqueIds}
use nextballup.Worker.Jobs.Invariant.{JobsOk}
use nextballup.Worker.Jobs.Laws.{WorkerOp, run_ops, claim_job_once, run_ops_terminal}
use nextballup.Worker.CvStages.{StageStatus, skipped_result}
use nextballup.Worker.Verify.{HeadResult}
use nextballup.Worker.Failure.{
  active_row, retry_metadata, claimed_job_still_active, handle_task_failure,
}
use nextballup.Worker.Failure.Outcome.{handle_task_failure_retry}
use nextballup.Worker.Transcode.{BrowserMezzanineArtifact, execute_transcode}
use nextballup.Worker.Transcode.Finish.{Outside, finish_transcode}
use nextballup.Worker.Transcode.Safety.{finish_transcode_lost}
use nextballup.Worker.Transcode.Invariant.{execute_transcode-JobsOk}
use nextballup.Worker.CvPipeline.{finish_cv_stage, execute_cv_stage}
use nextballup.Worker.CvPipeline.Stale.{finish_cv_stage_closed, execute_cv_stage-JobsOk}
use nextballup.Worker.Tests.{film, running_job, failed_job, store, settings, alone, store-JobsOk}

abbrev ops : List WorkerOp
ops =
    WorkerOp.claim 8 (some 4)
    ∷ WorkerOp.touch 8 (some 25) (some 4) (omega arith)
    ∷ WorkerOp.complete 6 none none
    ∷ WorkerOp.release 5 none
    ∷ WorkerOp.complete 8 none (some 4)
    ∷ []

abbrev oops : ProcessingFailure
oops = ProcessingFailure.unexpected none (codes "boom") none

abbrev broken : ProcessingFailure
broken = ProcessingFailure.permanent ErrorCode.processing_size_mismatch (codes "size")

abbrev mezzanine : BrowserMezzanineArtifact
mezzanine = record {
  mezzanine_key = codes "m/1";
  storage_etag = none;
  output_sha256 = codes "ab";
  output_size_bytes = 12;
  duration_seconds = some 60000;
  width = some 1280;
  height = some 720;
  fps = some 30000;
  codec = some (codes "h264");
  transcoder = codes "ffmpeg";
}

abbrev outside : Outside
outside = record {
  head_object = some (λ _. HeadResult.head_found (record {
    content_length = some 100;
    user_sha256 = none;
    checksum_sha256 = none;
    etag = none;
  }));
  decode = λ _. none;
  mezzanine = λ _. inr mezzanine;
  ticks = 2;
  elsewhere = alone;
}

store-UniqueIds : UniqueIds store.jobs
unfolding find_where
store-UniqueIds = (refl, (refl, (refl, tt)))

claim_job_once_example :
    claim_job 8 (some 3) (claim_job 8 (some 4) store).1 ≡ (none, (claim_job 8 (some 4) store).1)
claim_job_once_example = claim_job_once 8 (some 4) (some 3) store

run_ops_terminal_example : get_job 6 (run_ops ops store) ≡ some failed_job
unfolding get_job find_where
run_ops_terminal_example = run_ops_terminal ops 6 store refl refl

handle_task_failure_retry_example :
    get_job 5 (handle_task_failure 5 oops (some 9) store).1
    ≡ some (record running_job {
      status = ProcessingJobStatus.pending;
      progress_percent = 0;
      error_message = none;
      result_metadata = some (retry_metadata oops running_job);
      heartbeat_at = some 100;
    })
unfolding active_row find_where
handle_task_failure_retry_example =
    handle_task_failure_retry 5 oops (some 9) store store-UniqueIds refl refl

finish_transcode_lost_example :
    finish_transcode settings running_job (some 4) none Fields.end Fields.end mezzanine 20 store
    ≡ (skipped_result 5 (some ErrorCode.processing_cancelled), store)
unfolding claimed_job_still_active active_row find_where
finish_transcode_lost_example =
    finish_transcode_lost settings running_job (some 4) none Fields.end Fields.end mezzanine 20
      store refl

execute_transcode-JobsOk_example : JobsOk (execute_transcode settings outside 8 (some 4) 20 store).1
execute_transcode-JobsOk_example =
    execute_transcode-JobsOk settings outside 8 (some 4) 20 store (λ n d h. h) store-JobsOk

finish_cv_stage_closed_example :
    let ran = finish_cv_stage settings failed_job none film none Fields.end 20 store in
    (ran.0.status ≡ StageStatus.completed) × (get_job 6 ran.1 ≡ some failed_job)
unfolding get_job find_where
finish_cv_stage_closed_example =
    finish_cv_stage_closed settings failed_job none film none Fields.end 20 store refl refl

execute_cv_stage-JobsOk_example : JobsOk (execute_cv_stage settings alone 8 (some 4) 20 store).1
execute_cv_stage-JobsOk_example =
    execute_cv_stage-JobsOk settings alone 8 (some 4) 20 store (λ n d h. h) store-JobsOk
