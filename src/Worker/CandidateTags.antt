-- ===== src/Worker/CandidateTags.antt =====
-- apps/worker/src/nextballup_worker/runtime/demo_preview.py: `_sync_alpha_candidate_tags` past its early
-- returns, the one part of a demo preview that writes `processing_jobs`, as its caller commits it. The
-- candidate events that the report gives once it was validated, and the metadata of the run, are arguments.
use nextballup.Prelude.{
  ℕ, Bool, false, not, none, some, List, [], ◌++◌, ◌==◌, ◌&&◌, filter_where, update_where,
}
use nextballup.Core.Text.{Text, codes, text_eq}
use nextballup.Core.Enums.{ProcessingJobStage, ProcessingJobStatus, stage_value}
use nextballup.Core.Errors.{ErrorCode, AuditAction, code_value}
use nextballup.Core.Json.{Json, Fields, get_field, dict_of}
use nextballup.Db.{Db, Video, VideoEvent, ProcessingJob, write_audit}
use nextballup.Worker.Jobs.{failure_message}
use nextballup.Worker.Jobs.Row.{stage_job}
use nextballup.Worker.CvStages.{add_job, job_audit}

-- What the report of the artifact comes to.
pub data TagsOutcome : Type 0 where
  rejected : Text → TagsOutcome
  accepted : List VideoEvent → Fields → TagsOutcome

abbrev pub source_field : Fields → Fields
source_field rest = Fields.field "source" (Json.str (codes "alpha_candidate_tags")) rest

abbrev pub new_events_job : ℕ → Video → ℕ → ℕ → ProcessingJob
new_events_job id video request_id now = record {
  id = id;
  video_id = video.id;
  team_id = video.team_id;
  stage = ProcessingJobStage.events;
  status = ProcessingJobStatus.running;
  progress_percent = 0;
  celery_task_id = some request_id;
  started_at = some now;
  completed_at = none;
  error_message = none;
  result_metadata = some (source_field Fields.end);
  heartbeat_at = some now;
  created_at = now;
}

-- A row that is there is run anew, whatever its status.
abbrev pub restarted : ℕ → ℕ → ProcessingJob → ProcessingJob
restarted request_id now j = record j {
  status = ProcessingJobStatus.running;
  progress_percent = 0;
  celery_task_id = some request_id;
  started_at = some now;
  heartbeat_at = some now;
  completed_at = none;
  error_message = none;
}

abbrev pub preview_failed : ErrorCode
preview_failed = ErrorCode.other (codes "DEMO_PREVIEW_FAILED")

-- The values of the row at the commit.
abbrev pub settled : TagsOutcome → ℕ → ProcessingJob → ProcessingJob
settled (TagsOutcome.rejected message) now j = record j {
  status = ProcessingJobStatus.failed;
  progress_percent = 100;
  completed_at = some now;
  error_message = some (failure_message preview_failed message);
  result_metadata = some (
      source_field (
        Fields.field "error_code" (Json.str (code_value preview_failed)) (
          Fields.field "error_message" (Json.str message) (
            Fields.field "outputs" (Json.obj (Fields.field "events" (Json.num 0) Fields.end))
              Fields.end))));
}
settled (TagsOutcome.accepted _ metadata) now j = record j {
  status = ProcessingJobStatus.completed;
  progress_percent = 100;
  completed_at = some now;
  error_message = none;
  result_metadata = some metadata;
}

unfoldable pub is_alpha_candidate : ℕ → VideoEvent → Bool
unfolding get_field text_eq
is_alpha_candidate video_id row = elim (get_field "source" (dict_of row.event_metadata)) [
  | some (Json.str t) ↦
      row.video_id == video_id && text_eq t (codes "restricted_bard_lora_alpha_video_windows")
  | _ ↦ false
]

abbrev pub candidates_of : TagsOutcome → List VideoEvent
candidates_of (TagsOutcome.rejected _) = []
candidates_of (TagsOutcome.accepted rows _) = rows

-- The candidates of an earlier run go, and those of this one come; the newest row stands first.
unfoldable pub replace_alpha_candidate_events : ℕ → TagsOutcome → Db → Db
unfolding filter_where is_alpha_candidate
replace_alpha_candidate_events video_id outcome db = record db {
  events =
      candidates_of outcome ++ filter_where (λ e. not (is_alpha_candidate video_id e)) db.events;
}

abbrev pub tags_action : TagsOutcome → AuditAction
tags_action (TagsOutcome.rejected _) = AuditAction.video_processing_failed
tags_action (TagsOutcome.accepted _ _) = AuditAction.video_processing_completed

abbrev pub job_fields : Video → Fields → Fields
job_fields video rest =
    Fields.field "video_id" (Json.num video.id)
      (Fields.field "stage" (Json.str (stage_value ProcessingJobStage.events)) (source_field rest))

-- The second half: the events and the audit of the outcome.
unfoldable pub finish_tags : Video → TagsOutcome → Fields → ProcessingJob → Db → Db
unfolding replace_alpha_candidate_events write_audit
finish_tags video outcome extra job db =
    write_audit (job_audit (tags_action outcome) job (job_fields video extra))
      (replace_alpha_candidate_events video.id outcome db)

-- The row of the events job is made or run anew, and settled, in one transaction.
unfoldable pub sync_alpha_candidate_tags : Video → ℕ → ℕ → TagsOutcome → Fields → Db → Db
unfolding stage_job add_job write_audit finish_tags update_where
sync_alpha_candidate_tags video request_id new_id outcome extra db =
    elim (stage_job video.id ProcessingJobStage.events db.jobs) [
      | none ↦
          let job = new_events_job new_id video request_id db.now in
          finish_tags video outcome extra job (
            write_audit
              (job_audit AuditAction.video_processing_started job (job_fields video Fields.end))
              (add_job (settled outcome db.now job) db))
      | some job ↦ finish_tags video outcome extra job (record db {
        jobs =
            update_where (λ j. j.id == job.id)
              (λ j. settled outcome db.now (restarted request_id db.now j)) db.jobs;
      })
    ]
