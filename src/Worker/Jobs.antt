-- ===== src/Worker/Jobs.antt =====
-- apps/worker/src/nextballup_worker/runtime/jobs.py: the guarded transitions of a processing job and
-- of its video. Each is one UPDATE ... WHERE ... RETURNING: the WHERE clause is a Boolean test of
-- the row, the values are a function of it, and the row that is returned is the one it took.
-- A commit is the return of the state.
pub mod Row
pub mod Invariant
pub mod Laws
use Prim.Native.String.{String}
use mathlib.Core.Option
use nextballup.Prelude.{
  ℕ, Bool, true, false, ◌&&◌, Option, none, some, List, ◌++◌, ◌==◌, if◌then◌else◌, or_else, sql_eq,
  take, find_where, update_where,
}
use nextballup.Core.Text.{Text, codes}
use nextballup.Core.Enums.{
  VideoStatus, ProcessingJobStatus, is_pending, is_running, is_open, status_in,
}
use nextballup.Core.Errors.{ErrorCode, code_value}
use nextballup.Core.Json.{Json, Fields, dict_of, set_field}
use nextballup.Db.{Db, Video, ProcessingJob}

-- UPDATE processing_jobs ... RETURNING, with the rows as the statement leaves them.
unfoldable pub update_jobs :
    (ProcessingJob → Bool) → (ProcessingJob → ProcessingJob) → Db → Option ProcessingJob × Db
update_jobs p f db =
    (Option.map f (find_where p db.jobs), record db { jobs = update_where p f db.jobs })

unfoldable pub update_videos : (Video → Bool) → (Video → Video) → Db → Option Video × Db
update_videos p f db =
    (Option.map f (find_where p db.videos), record db { videos = update_where p f db.videos })

-- `celery_task_id is not None` adds a condition to a statement.
abbrev pub owned_by : Option ℕ → ProcessingJob → Bool
owned_by none j = true
owned_by (some task) j = sql_eq j.celery_task_id task

unfoldable pub claim_values : Option ℕ → ℕ → ProcessingJob → ProcessingJob
claim_values celery_task_id now j = record j {
  status = ProcessingJobStatus.running;
  celery_task_id = celery_task_id;
  started_at = some (or_else j.started_at now);
  heartbeat_at = some now;
}

unfoldable pub claim_job : ℕ → Option ℕ → Db → Option ProcessingJob × Db
unfolding update_jobs claim_values
claim_job job_id celery_task_id db =
    update_jobs (λ j. j.id == job_id && is_pending j.status) (claim_values celery_task_id db.now) db

-- The keyword arguments of the source, in its order.
unfoldable pub touch_heartbeat : ℕ → Option ℕ → Option ℕ → Db → Db
unfolding update_jobs
touch_heartbeat job_id progress_percent celery_task_id db =
    (update_jobs (λ j. j.id == job_id && (is_running j.status && owned_by celery_task_id j))
      (λ j. record j {
        heartbeat_at = some db.now;
        progress_percent = or_else progress_percent j.progress_percent;
      })
      db).1

abbrev pub completed_values : Option Fields → ℕ → ProcessingJob → ProcessingJob
completed_values result_metadata now j = record j {
  status = ProcessingJobStatus.completed;
  progress_percent = 100;
  completed_at = some now;
  error_message = none;
  result_metadata = result_metadata;
}

unfoldable pub complete_job : ℕ → Option Fields → Option ℕ → Db → Option ProcessingJob × Db
unfolding update_jobs
complete_job job_id result_metadata celery_task_id db =
    update_jobs (λ j. j.id == job_id && (is_running j.status && owned_by celery_task_id j))
      (completed_values result_metadata db.now) db

-- f"[{error_code}] {error_message}"[:2000]
unfoldable pub failure_message : ErrorCode → Text → Text
failure_message error_code error_message =
    take 2000 (codes "[" ++ (code_value error_code ++ (codes "] " ++ error_message)))

abbrev pub failed_values : ErrorCode → Text → Option Fields → ℕ → ProcessingJob → ProcessingJob
failed_values error_code error_message result_metadata now j = record j {
  status = ProcessingJobStatus.failed;
  completed_at = some now;
  error_message = some (failure_message error_code error_message);
  result_metadata =
      some (set_field "error_code" (Json.str (code_value error_code)) (dict_of result_metadata));
}

unfoldable pub fail_job : ℕ → ErrorCode → Text → Option Fields → Db → Option ProcessingJob × Db
unfolding update_jobs
fail_job job_id error_code error_message result_metadata db =
    update_jobs (λ j. j.id == job_id && is_open j.status)
      (failed_values error_code error_message result_metadata db.now) db

unfoldable pub release_job_for_retry : ℕ → Option Fields → Db → Option ProcessingJob × Db
unfolding update_jobs
release_job_for_retry job_id result_metadata db =
    update_jobs (λ j. j.id == job_id && is_running j.status)
      (λ j. record j {
        status = ProcessingJobStatus.pending;
        progress_percent = 0;
        error_message = none;
        result_metadata = result_metadata;
        heartbeat_at = some db.now;
      })
      db

-- An empty or missing `allowed_from` adds no condition.
abbrev pub allowed : List VideoStatus → VideoStatus → Bool
allowed List.[] s = true
allowed (List.◌∷◌ t ts) s = status_in s (List.◌∷◌ t ts)

unfoldable pub set_video_status : ℕ → VideoStatus → List VideoStatus → Db → Option Video × Db
unfolding update_videos
set_video_status video_id new_status allowed_from db =
    update_videos (λ v. v.id == video_id && allowed allowed_from v.status)
      (λ v. record v { status = new_status }) db

unfoldable pub get_job : ℕ → Db → Option ProcessingJob
get_job job_id db = find_where (λ j. j.id == job_id) db.jobs
