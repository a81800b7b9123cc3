-- ===== src/Worker.antt =====
-- apps/worker/src/nextballup_worker: the Celery worker's runtime.
pub mod Errors
pub mod Jobs
pub mod CvStages
pub mod CvArtifacts
pub mod CvPipeline
pub mod Verify
pub mod Failure
pub mod Transcode
pub mod Dispatch
pub mod Recovery
pub mod AbandonedUploads
pub mod CandidateTags
pub mod Tests
