-- ===== src/Worker/Dispatch.antt =====
-- apps/worker/src/nextballup_worker/runtime/dispatch.py, and routing.py with its queues: the pass that
-- hands pending jobs to Celery. `enqueue` is the broker's answer for a job and its stage, None where
-- it raises; `elsewhere` is what other sessions commit between the SELECT and each row's UPDATE.
pub mod Once
pub mod Delivered
use mathlib.Core.Option
use nextballup.Prelude.{
  ℕ, ◌+◌, ◌-◌, ◌/◌, Bool, true, false, ◌&&◌, Option, none, some, List, [], ◌∷◌, ◌==◌, leb,
  if◌then◌else◌, is_none, filter_where, take,
}
use nextballup.Core.Text.{Text}
use nextballup.Core.Enums.{ProcessingJobStage, stage_value, is_pending}
use nextballup.Core.Errors.{AuditAction}
use nextballup.Core.Json.{Json, Fields}
use nextballup.Db.{Db, ProcessingJob, write_audit}
use nextballup.Worker.Jobs.{update_jobs}
use nextballup.Worker.CvStages.{job_audit}

pub record Queues : Type 0 where
  pub celery_task_default_queue : Text
  pub celery_cpu_queue : Text
  pub celery_gpu_queue : Text
  pub celery_transcode_queue : Text

unfoldable pub queue_for_stage : ProcessingJobStage → Queues → Text
queue_for_stage ProcessingJobStage.transcode q = q.celery_transcode_queue
queue_for_stage ProcessingJobStage.detection q = q.celery_gpu_queue
queue_for_stage ProcessingJobStage.tracking q = q.celery_gpu_queue
queue_for_stage ProcessingJobStage.events q = q.celery_gpu_queue
queue_for_stage ProcessingJobStage.court_mapping q = q.celery_cpu_queue
queue_for_stage ProcessingJobStage.metrics q = q.celery_task_default_queue

-- min(5, max(1, interval // 2)) seconds
unfoldable pub grace : ℕ → ℕ
grace interval =
    if leb (interval / 2) 1 then 1 else if leb (interval / 2) 5 then interval / 2 else 5

unfoldable pub awaits_dispatch : ProcessingJob → Bool
awaits_dispatch j = is_pending j.status && is_none j.celery_task_id

-- ORDER BY created_at
insert_oldest : ProcessingJob → List ProcessingJob → List ProcessingJob
insert_oldest j [] = j ∷ []
insert_oldest j (i ∷ is) =
    if leb j.created_at i.created_at then j ∷ i ∷ is else i ∷ insert_oldest j is

oldest_first : List ProcessingJob → List ProcessingJob
unfolding insert_oldest
oldest_first [] = []
oldest_first (j ∷ js) = insert_oldest j (oldest_first js)

-- The rows of the SELECT; `created_at <= now - grace`.
unfoldable pub dispatch_candidates : ℕ → ℕ → Db → List ProcessingJob
unfolding awaits_dispatch grace oldest_first filter_where
dispatch_candidates interval limit db = take limit (
    oldest_first
      (filter_where (λ j. awaits_dispatch j && leb (j.created_at + grace interval) db.now) db.jobs))

abbrev pub with_task : ℕ → ProcessingJob → ProcessingJob
with_task task j = record j { celery_task_id = some task }

-- The guarded UPDATE of a row that the broker took, with its audit and commit; the row that was
-- returned says whether the job counts as dispatched.
unfoldable pub record_dispatch : ProcessingJob → ℕ → Option ProcessingJob × Db → Bool × Db
unfolding write_audit
record_dispatch job task (none, db) = (false, db)
record_dispatch job task (some _, db) = (
  true,
  write_audit
      (job_audit AuditAction.video_processing_dispatched job (
        Fields.field "video_id" (Json.num job.video_id) (
          Fields.field "stage" (Json.str (stage_value job.stage))
            (Fields.field "celery_task_id" (Json.num task) Fields.end))))
      db,
)

unfoldable pub dispatch_job : ProcessingJob → Option ℕ → Db → Bool × Db
unfolding update_jobs record_dispatch awaits_dispatch
dispatch_job job none db = (false, db)
dispatch_job job (some task) db =
    record_dispatch job task
      (update_jobs (λ j. j.id == job.id && awaits_dispatch j) (with_task task) db)

-- The loop; the result lists the jobs that were handed out.
unfoldable pub dispatch_jobs :
    (ℕ → ProcessingJobStage → Option ℕ) → (ℕ → Db → Db) → List ProcessingJob → Db → List ℕ × Db
unfolding dispatch_job
dispatch_jobs enqueue elsewhere [] db = ([], db)
dispatch_jobs enqueue elsewhere (job ∷ jobs) db =
    let sent = dispatch_job job (enqueue job.id job.stage) (elsewhere job.id db) in
    let rest = dispatch_jobs enqueue elsewhere jobs sent.1 in
    (if sent.0 then job.id ∷ rest.0 else rest.0, rest.1)

unfoldable pub dispatch_pending_jobs :
    (ℕ → ProcessingJobStage → Option ℕ) → (ℕ → Db → Db) → ℕ → ℕ → Db → List ℕ × Db
unfolding dispatch_jobs dispatch_candidates
dispatch_pending_jobs enqueue elsewhere interval limit db =
    dispatch_jobs enqueue elsewhere (dispatch_candidates interval limit db) db
