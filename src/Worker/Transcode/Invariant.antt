-- ===== src/Worker/Transcode/Invariant.antt =====
-- transcode.py: that a whole transcode run keeps the job rows well-formed.
use nextballup.Prelude.{
  ℕ, zero, suc, ◌+◌, Option, none, some, arith, inl, inr, Bool-cases, Option-cases, Sum-cases,
}
use nextballup.Core.Text.{Text}
use nextballup.Core.Enums.{ProcessingJobStage, stage_eq}
use nextballup.Core.Json.{Fields}
use nextballup.Db.{Db, Video, ProcessingJob, write_audit}
use nextballup.Worker.Jobs.{claim_job, touch_heartbeat, get_job, set_video_status, update_videos}
use nextballup.Worker.Jobs.Invariant.{
  JobsOk, claim_job-JobsOk, touch_heartbeat-JobsOk, complete_job-JobsOk,
}
use nextballup.Worker.CvStages.{WorkerSettings, queue_next_stage_if_enabled}
use nextballup.Worker.CvStages.Rows.{queue_next_stage_if_enabled-JobsOk}
use nextballup.Worker.Verify.{HeadResult, verify_storage}
use nextballup.Worker.Failure.{claimed_job_still_active}
use nextballup.Worker.Failure.Outcome.{handle_task_failure-JobsOk}
use nextballup.Worker.Transcode.{
  BrowserMezzanineArtifact, load_video, recorded_outputs, materialize_outputs, publish, work,
  run_claimed, claimed_run, video_vanished, storage_missing, execute_transcode,
}
use nextballup.Worker.Transcode.Finish.{
  Outside, beat, transcode_started, finish_transcode, completed_transcode, materialized_audit,
}

recorded_outputs-JobsOk :
    (artifact : BrowserMezzanineArtifact) (updated : Option Video × Db)
    → JobsOk updated.1
    → JobsOk (recorded_outputs artifact updated).1
unfolding recorded_outputs
recorded_outputs-JobsOk artifact (none, db) h = h
recorded_outputs-JobsOk artifact (some v, db) h = h

materialize_outputs-JobsOk :
    (video : Video) (artifact : BrowserMezzanineArtifact) (settings : WorkerSettings) (job_id : ℕ)
    (task : Option ℕ) (db : Db)
    → JobsOk db
    → JobsOk (materialize_outputs video artifact settings job_id task db).1
unfolding materialize_outputs update_videos
materialize_outputs-JobsOk video artifact settings job_id task db h =
    elim (Bool-cases (claimed_job_still_active job_id task db)) [
      | inl t ↦ rw t (recorded_outputs-JobsOk artifact _ h)
      | inr f ↦ rw f h
    ]

completed_transcode-JobsOk :
    (settings : WorkerSettings) (claimed : ProcessingJob) (origin : Option ℕ)
    (verification : Fields) (artifact : BrowserMezzanineArtifact) (new_id : ℕ)
    (completed : Option ProcessingJob × Db)
    → JobsOk completed.1
    → JobsOk (completed_transcode settings claimed origin verification artifact new_id completed).1
unfolding completed_transcode set_video_status update_videos write_audit
completed_transcode-JobsOk settings claimed origin verification artifact new_id (none, db) h = h
completed_transcode-JobsOk settings claimed origin verification artifact new_id (some i, db) h =
    kept _ _ h
  where
    kept :
        (v : Option Video) (d : Db)
        → JobsOk d
        → JobsOk (elim v [
          | none ↦ d
          | some video ↦
              (queue_next_stage_if_enabled video ProcessingJobStage.transcode settings new_id d).1
        ])
    kept none d k = k
    kept (some video) d k =
        queue_next_stage_if_enabled-JobsOk video ProcessingJobStage.transcode settings new_id d k

module _ (settings : WorkerSettings) (outside : Outside)
    (others : (n : ℕ) (d : Db) → JobsOk d → JobsOk (outside.elsewhere n d)) where
  beat-JobsOk :
      (n job_id : ℕ) (task : Option ℕ) (db : Db)
      → JobsOk db
      → JobsOk (beat n outside.elsewhere job_id task db)
  unfolding beat
  beat-JobsOk zero job_id task db h = h
  beat-JobsOk (suc n) job_id task db h =
      beat-JobsOk n job_id task _
        (others (7 + n) _ (touch_heartbeat-JobsOk job_id (some 50) task db (omega arith) h))

  publish-JobsOk :
      (claimed : ProcessingJob) (task origin : Option ℕ) (video : Video) (verification : Fields)
      (artifact : BrowserMezzanineArtifact) (new_id : ℕ) (db : Db)
      → JobsOk db
      → JobsOk
          (publish settings outside claimed task origin video verification artifact new_id db).1
  unfolding publish finish_transcode materialized_audit write_audit
  publish-JobsOk claimed task origin video verification artifact new_id db h =
      let written : Option Fields × Db =
        materialize_outputs video artifact settings claimed.id task db in
      let hw : JobsOk written.1 =
        materialize_outputs-JobsOk video artifact settings claimed.id task db h in
      elim (Option-cases written.0) [
        | inl n ↦ rw (n, publish) hw
        | inr (outputs, e) ↦
            rw (e, publish)
              (let audited : Db =
                  materialized_audit claimed origin outputs artifact
                    (outside.elsewhere 4 written.1) in
                let ha : JobsOk audited = others 4 written.1 hw in
                let later : Db = outside.elsewhere 5 audited in
                let last : Db =
                  outside.elsewhere 6 (touch_heartbeat claimed.id (some 80) task later) in
                completed_transcode-JobsOk settings claimed origin verification artifact new_id _ (
                  complete_job-JobsOk claimed.id _ task last (
                    others 6 _ (
                      touch_heartbeat-JobsOk claimed.id (some 80) task later (omega arith)
                        (others 5 audited ha)))))
      ]

  work-JobsOk :
      (claimed : ProcessingJob) (task origin : Option ℕ) (video : Video)
      (head_object : Text → HeadResult) (new_id : ℕ) (db : Db)
      → JobsOk db
      → JobsOk (work settings outside claimed task origin video head_object new_id db).1
  unfolding work
  work-JobsOk claimed task origin video head_object new_id db h =
      let hb =
        beat-JobsOk outside.ticks claimed.id task _
          (others 3 _ (touch_heartbeat-JobsOk claimed.id (some 50) task db (omega arith) h)) in
      elim (Sum-cases (verify_storage head_object outside.decode video)) [
        | inl (exc, e) ↦ rw (e, work) (handle_task_failure-JobsOk claimed.id exc task db h)
        | inr (verification, e) ↦ elim (Sum-cases (outside.mezzanine video)) [
          | inl (exc, m) ↦ rw (e, m, work) (handle_task_failure-JobsOk claimed.id exc task _ hb)
          | inr (artifact, m) ↦
              rw (e, m, work)
                (publish-JobsOk claimed task origin video verification artifact new_id _ hb)
        ]
      ]

  run_claimed-JobsOk :
      (claimed : ProcessingJob) (task origin : Option ℕ) (new_id : ℕ) (db : Db)
      → JobsOk db
      → JobsOk (run_claimed settings outside claimed task origin new_id db).1
  unfolding run_claimed
  run_claimed-JobsOk claimed task origin new_id db h =
      let begun : Db = outside.elsewhere 2 (touch_heartbeat claimed.id (some 10) task db) in
      let hb : JobsOk begun =
        others 2 _ (touch_heartbeat-JobsOk claimed.id (some 10) task db (omega arith) h) in
      elim (Option-cases (load_video claimed.video_id begun)) [
        | inl n ↦
            rw (n, run_claimed) (handle_task_failure-JobsOk claimed.id video_vanished task begun hb)
        | inr (video, e) ↦ elim (Option-cases outside.head_object) [
          | inl n ↦
              rw (e, n, run_claimed)
                (handle_task_failure-JobsOk claimed.id storage_missing task begun hb)
          | inr (head_object, o) ↦
              rw (e, o, run_claimed)
                (work-JobsOk claimed task origin video head_object new_id begun hb)
        ]
      ]

  claimed_run-JobsOk :
      (job_id : ℕ) (task : Option ℕ) (new_id : ℕ) (claim : Option ProcessingJob × Db)
      → JobsOk claim.1
      → JobsOk (claimed_run settings outside job_id task new_id claim).1
  unfolding claimed_run transcode_started write_audit set_video_status update_videos
  claimed_run-JobsOk job_id task new_id (none, db) h = h
  claimed_run-JobsOk job_id task new_id (some claimed, db) h =
      run_claimed-JobsOk claimed task _ new_id _ (others 1 _ (others 0 db h))

-- A run of the transcode stage keeps the rows of the jobs well-formed on every branch, whatever the
-- object store and the encoder answer and whatever other sessions commit in between, as long as
-- they keep them well-formed.
pub execute_transcode-JobsOk :
    (settings : WorkerSettings) (outside : Outside) (job_id : ℕ) (task : Option ℕ) (new_id : ℕ)
    (db : Db)
    → ((n : ℕ) (d : Db) → JobsOk d → JobsOk (outside.elsewhere n d))
    → JobsOk db
    → JobsOk (execute_transcode settings outside job_id task new_id db).1
unfolding execute_transcode
execute_transcode-JobsOk settings outside job_id task new_id db others h =
    elim (Option-cases (get_job job_id db)) [
      | inl n ↦ rw (n, execute_transcode) h
      | inr (job, e) ↦ elim (Bool-cases (stage_eq job.stage ProcessingJobStage.transcode)) [
        | inl t ↦
            rw (e, t, execute_transcode)
              (claimed_run-JobsOk settings outside others job.id task new_id
                (claim_job job.id task db) (claim_job-JobsOk job.id task db h))
        | inr f ↦ rw (e, f, execute_transcode) h
      ]
    ]
