-- ===== src/System/Effects.antt =====
-- What each step of the system does to `processing_jobs`: each follows the life of a job.
use nextballup.Prelude.{
  false, find_where_self, and_true, ℕ, ◌≡◌, refl, sym, subst, Bool, true, ◌&&◌, Option, none, some,
  List, [], ◌∷◌, arith, ◌==◌, inl, inr, Option-cases, find_where, update_where, All, All-map,
}
use nextballup.Core.Text.{Text}
use nextballup.Core.Enums.{ProcessingJobStage, stage_eq}
use nextballup.Core.Errors.{ErrorCode}
use nextballup.Core.Json.{Fields}
use nextballup.Db.{Db, User, Video, ProcessingJob, write_audit}
use nextballup.Worker.Jobs.{
  update_jobs, claim_job, touch_heartbeat, complete_job, fail_job, release_job_for_retry,
  set_video_status, get_job,
}
use nextballup.Worker.Jobs.Row.{UniqueIds, KeepsIdentity, stage_job}
use nextballup.Worker.Jobs.Invariant.{JobOk, failure_message_bound}
use nextballup.Worker.Jobs.Laws.{WorkerOp, run_op}
use nextballup.Worker.Dispatch.{awaits_dispatch, with_task, dispatch_job}
use nextballup.Worker.Dispatch.Once.{record_dispatch_jobs}
use nextballup.Worker.Recovery.{recover_job, terminal_failure, stale_metadata}
use nextballup.Worker.CvStages.{WorkerSettings, pending_job, queue_next_stage_if_enabled, add_job}
use nextballup.Worker.CvStages.Rows.{pending_job-JobOk, queue_next-jobs}
use nextballup.Worker.Recovery.Revoked.{fail_video_of-jobs}
use nextballup.Api.Uploads.{CompleteUploadRequest, ObjectStore, complete_upload}
use nextballup.Api.Uploads.Rows.{complete_upload-jobs}
use nextballup.Api.Cancel.{cancelled_values, cancel_job}
use nextballup.Api.Cancel.Revoked.{Cancelled, cancel_processing-Cancelled}
use nextballup.Api.Requeue.{requeued_values, requeue_job}
use nextballup.Api.Requeue.Delivered.{Requeued, requeue_processing-Requeued}
use nextballup.Worker.CandidateTags.{
  TagsOutcome, new_events_job, restarted, settled, finish_tags, replace_alpha_candidate_events,
  sync_alpha_candidate_tags, preview_failed,
}
use nextballup.System.{Step, Fresh, is_preview}
use nextballup.System.JobTable.{may_move, Legal, JobChange, same_row}

-- Every row, for a condition that holds of all of them.
All-of :
    (P : ProcessingJob → Type 0)
    → ((j : ProcessingJob) → P j)
    → (js : List ProcessingJob) → All P js
All-of P h [] = tt
All-of P h (j ∷ js) = (h j, All-of P h js)

abbrev Follows : List ProcessingJob → Db → Type 0
Follows js after = JobChange false js after.jobs

-- A guarded UPDATE follows the life of a job if its values do where its guard holds.
guarded :
    (p : ProcessingJob → Bool) (f : ProcessingJob → ProcessingJob) (js : List ProcessingJob)
    → KeepsIdentity f
    → ((j : ProcessingJob) → p j ≡ true → Legal false j (f j))
    → JobChange false js (update_where p f js)
guarded p f js keeps legal = JobChange.updated p f keeps (All-of _ legal js)

abbrev kept :
    {f : ProcessingJob → ProcessingJob}
    → ((j : ProcessingJob) → (f j).id ≡ j.id)
    → ((j : ProcessingJob) → (f j).video_id ≡ j.video_id)
    → ((j : ProcessingJob) → (f j).stage ≡ j.stage)
    → KeepsIdentity f
kept i v s = record { same_id = i; same_video = v; same_stage = s }

fail_job-JobChange :
    (job_id : ℕ) (code : ErrorCode) (message : Text) (meta : Option Fields) (db : Db)
    → Follows db.jobs (fail_job job_id code message meta db).1
unfolding fail_job update_jobs may_move
fail_job-JobChange job_id code message meta db =
    guarded _ _ db.jobs (kept (λ j. refl) (λ j. refl) (λ j. refl)) (λ j t. record {
      moves = ground arith;
      sound = λ v. ground (arith, failure_message_bound code message);
    })

run_op-JobChange : (op : WorkerOp) (db : Db) → Follows db.jobs (run_op op db)
unfolding run_op claim_job touch_heartbeat complete_job release_job_for_retry update_jobs may_move
run_op-JobChange (WorkerOp.claim k t) db =
    guarded _ _ db.jobs (kept (λ j. refl) (λ j. refl) (λ j. refl))
      (λ j t. record { moves = ground arith; sound = λ v. ground arith })
run_op-JobChange (WorkerOp.touch k p t small) db =
    guarded _ _ db.jobs (kept (λ j. refl) (λ j. refl) (λ j. refl))
      (λ j t. record { moves = ground arith; sound = λ v. ground arith })
run_op-JobChange (WorkerOp.complete k m t) db =
    guarded _ _ db.jobs (kept (λ j. refl) (λ j. refl) (λ j. refl))
      (λ j t. record { moves = ground arith; sound = λ v. ground arith })
run_op-JobChange (WorkerOp.fail k c e m) db = fail_job-JobChange k c e m db
run_op-JobChange (WorkerOp.release k m) db =
    guarded _ _ db.jobs (kept (λ j. refl) (λ j. refl) (λ j. refl))
      (λ j t. record { moves = ground arith; sound = λ v. ground arith })

dispatch_job-JobChange :
    (job : ProcessingJob) (task : Option ℕ) (db : Db) → Follows db.jobs (dispatch_job job task db).1
unfolding dispatch_job update_jobs awaits_dispatch may_move
dispatch_job-JobChange job none db = JobChange.same
dispatch_job-JobChange job (some task) db =
    rw
      (record_dispatch_jobs job task
        (update_jobs (λ j. j.id == job.id && awaits_dispatch j) (with_task task) db))
      (guarded _ _ db.jobs (kept (λ j. refl) (λ j. refl) (λ j. refl))
        (λ j t. record { moves = ground arith; sound = λ v. ground arith }))

recover_job-JobChange : (job : ProcessingJob) (db : Db) → Follows db.jobs (recover_job job db)
unfolding recover_job write_audit set_video_status
recover_job-JobChange job db = fail_job-JobChange job.id _ _ (stale_metadata job) db

queue_next-JobChange :
    (video : Video) (stage : ProcessingJobStage) (settings : WorkerSettings) (new_id : ℕ) (db : Db)
    → Fresh new_id db
    → Follows db.jobs (queue_next_stage_if_enabled video stage settings new_id db).1
unfolding pending_job
queue_next-JobChange video stage settings new_id db fresh =
    queue_next-jobs video stage settings new_id db (JobChange false db.jobs) JobChange.same (λ s.
      JobChange.added (pending_job new_id video.id video.team_id s db.now) refl
        (pending_job-JobOk new_id video.id video.team_id s db.now) fresh)

-- An update by the id of a row that was found is legal if it is so for that row.
held :
    (preview : Bool) (q : ProcessingJob → Bool) (f : ProcessingJob → ProcessingJob)
    (job : ProcessingJob) (js : List ProcessingJob)
    → UniqueIds js
    → find_where q js ≡ some job
    → KeepsIdentity f
    → Legal preview job (f job)
    → JobChange preview js (update_where (λ j. j.id == job.id) f js)
held preview q f job js u found keeps legal =
    JobChange.updated (λ j. j.id == job.id) f keeps
      (All-map (λ j. (j.id == job.id) ≡ true → j ≡ job) _
        (λ j same t. subst (λ i. Legal preview i (f i)) (sym (same t)) legal) js
        (same_row q js u found))

Cancelled-JobChange :
    {user : User} {db after : Db} {k : ℕ}
    → UniqueIds db.jobs
    → Cancelled user db k after
    → Follows db.jobs after
unfolding cancel_job write_audit cancelled_values may_move stage_job
Cancelled-JobChange {user} {db} u c = subst (Follows db.jobs) c.saved (
    held false _ (cancelled_values user db.now) c.job db.jobs u c.found
      (kept (λ j. refl) (λ j. refl) (λ j. refl))
      (record { moves = ground (arith, c.running); sound = λ v. ground arith }))

Requeued-JobChange :
    {user : User} {db after : Db} {k : ℕ}
    → UniqueIds db.jobs
    → Requeued user db k after
    → Follows db.jobs after
unfolding requeue_job write_audit requeued_values may_move stage_job
Requeued-JobChange {user} {db} u c = subst (Follows db.jobs) c.saved (
    held false _ requeued_values c.job db.jobs u c.found (kept (λ j. refl) (λ j. refl) (λ j. refl))
      (record { moves = ground (arith, c.failed); sound = λ v. ground arith }))

ended-JobChange :
    (job_id : ℕ) (code : ErrorCode) (message : Text) (fail_video : Bool) (db : Db)
    → Follows db.jobs (terminal_failure job_id code message fail_video db)
unfolding terminal_failure write_audit
ended-JobChange job_id code message fail_video db = elim (Option-cases (get_job job_id db)) [
  | inl n ↦ rw (n, terminal_failure) JobChange.same
  | inr (job, e) ↦
      rw (e, terminal_failure)
        (rw (fail_video_of-jobs fail_video job (fail_job job.id code message none db))
          (fail_job-JobChange job.id code message none db))
]

uploaded-JobChange :
    (verified_only : Bool) (settings : WorkerSettings) (storage : Option ObjectStore) (user : User)
    (video_id : ℕ) (payload : CompleteUploadRequest) (new_id : ℕ) (db : Db)
    → Fresh new_id db
    → Follows db.jobs
        (complete_upload verified_only settings storage user video_id payload new_id db).1
unfolding pending_job
uploaded-JobChange verified_only settings storage user video_id payload new_id db fresh =
    complete_upload-jobs (JobChange false db.jobs) settings storage user payload new_id db
      JobChange.same
      (λ video _.
        JobChange.added
          (pending_job new_id video.id video.team_id ProcessingJobStage.transcode db.now) refl
          (pending_job-JobOk new_id video.id video.team_id ProcessingJobStage.transcode db.now)
          fresh)
      verified_only video_id

settled-JobOk :
    (outcome : TagsOutcome) (now : ℕ) (j : ProcessingJob) → JobOk (settled outcome now j)
settled-JobOk (TagsOutcome.rejected message) now j =
    ground (arith, failure_message_bound preview_failed message)
settled-JobOk (TagsOutcome.accepted _ metadata) now j = ground arith

settled-KeepsIdentity :
    (outcome : TagsOutcome) (request_id now : ℕ)
    → KeepsIdentity (λ j. settled outcome now (restarted request_id now j))
settled-KeepsIdentity (TagsOutcome.rejected _) request_id now =
    kept (λ j. refl) (λ j. refl) (λ j. refl)
settled-KeepsIdentity (TagsOutcome.accepted _ _) request_id now =
    kept (λ j. refl) (λ j. refl) (λ j. refl)

-- The stage of the row stays, and an events job may start and move as it likes.
settled-stage :
    (outcome : TagsOutcome) (now : ℕ) (j : ProcessingJob) → (settled outcome now j).stage ≡ j.stage
settled-stage (TagsOutcome.rejected _) now j = refl
settled-stage (TagsOutcome.accepted _ _) now j = refl

settled-id :
    (outcome : TagsOutcome) (now : ℕ) (j : ProcessingJob) → (settled outcome now j).id ≡ j.id
settled-id (TagsOutcome.rejected _) now j = refl
settled-id (TagsOutcome.accepted _ _) now j = refl

-- A preview settles the events job of its video, made or run anew.
previewed-JobChange :
    (video : Video) (request_id new_id : ℕ) (outcome : TagsOutcome) (extra : Fields) (db : Db)
    → Fresh new_id db
    → UniqueIds db.jobs
    → JobChange true db.jobs
        (sync_alpha_candidate_tags video request_id new_id outcome extra db).jobs
unfolding sync_alpha_candidate_tags finish_tags replace_alpha_candidate_events add_job write_audit
    stage_job
previewed-JobChange video request_id new_id outcome extra db fresh u =
    elim (Option-cases (stage_job video.id ProcessingJobStage.events db.jobs)) [
      | inl n ↦
          let job = new_events_job new_id video request_id db.now in
          rw (n, sync_alpha_candidate_tags)
            (JobChange.added (settled outcome db.now job)
              (rw (settled-stage outcome db.now job) refl) (settled-JobOk outcome db.now job)
              (rw (settled-id outcome db.now job) fresh))
      | inr (job, e) ↦
          let found =
            find_where_self
              (λ j. j.video_id == video.id && stage_eq j.stage ProcessingJobStage.events) db.jobs
              e in
          let events =
            (and_true (job.video_id == video.id) (stage_eq job.stage ProcessingJobStage.events)
              found).1 in
          rw (e, sync_alpha_candidate_tags)
            (held true _ (λ j. settled outcome db.now (restarted request_id db.now j)) job db.jobs u
              e (settled-KeepsIdentity outcome request_id db.now)
              (record { moves = rw events refl; sound = λ v. settled-JobOk outcome db.now _ }))
    ]

-- With the primary key, every step follows the life of a job.
pub Step-JobChange :
    {db after : Db} (step : Step db after)
    → UniqueIds db.jobs
    → JobChange (is_preview step) db.jobs after.jobs
Step-JobChange (Step.worker op db) u = run_op-JobChange op db
Step-JobChange (Step.dispatched job task db) u = dispatch_job-JobChange job task db
Step-JobChange (Step.recovered job db) u = recover_job-JobChange job db
Step-JobChange (Step.ended k code message fail_video db) u =
    ended-JobChange k code message fail_video db
Step-JobChange (Step.stage_queued video stage settings new_id db fresh) u =
    queue_next-JobChange video stage settings new_id db fresh
Step-JobChange (Step.uploaded vo settings storage user video_id payload new_id db fresh) u =
    uploaded-JobChange vo settings storage user video_id payload new_id db fresh
Step-JobChange (Step.cancelled vo user video_id stage_text db e) u =
    Cancelled-JobChange u (cancel_processing-Cancelled vo user video_id stage_text db e)
Step-JobChange (Step.requeued vo user video_id stage_text storage db e) u =
    Requeued-JobChange u (requeue_processing-Requeued vo user video_id stage_text storage db e)
Step-JobChange (Step.previewed video request_id new_id outcome extra db fresh) u =
    previewed-JobChange video request_id new_id outcome extra db fresh u
Step-JobChange {db} {after} (Step.unrelated same) u = rw same JobChange.same
