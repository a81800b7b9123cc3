-- ===== src/Core/Enums.antt =====
-- packages/core/src/nextballup_core/enums.py: the enumerations, with the tests `is` and `in`.
use nextballup.Prelude.{Bool, true, false, List, [], ◌∷◌, if◌then◌else◌}
use nextballup.Core.Text.{Text, codes}

pub data UserRole : Type 0 where
  coach player admin : UserRole

pub data TeamRole : Type 0 where
  head_coach assistant_coach manager player captain : TeamRole

pub data TeamLevel : Type 0 where
  youth aau_club middle_school high_school juco college_d3 college_d2 college_d1 : TeamLevel
  professional international : TeamLevel

pub data InstitutionType : Type 0 where
  none k12_school college club academy professional : InstitutionType

pub data VideoStatus : Type 0 where
  pending_upload uploading uploaded transcoding queued processing processed failed : VideoStatus

pub data ProcessingJobStage : Type 0 where
  transcode detection tracking court_mapping events metrics : ProcessingJobStage

pub data ProcessingJobStatus : Type 0 where
  pending running completed failed : ProcessingJobStatus

pub data ModelArtifactStatus : Type 0 where
  candidate active retired blocked : ModelArtifactStatus

pub data ReviewStatus : Type 0 where
  machine_only needs_review approved rejected : ReviewStatus

pub data BillingAccountStatus : Type 0 where
  active suspended closed : BillingAccountStatus

pub data SubscriptionStatus : Type 0 where
  trialing active past_due canceled incomplete : SubscriptionStatus

abbrev pub is_admin : UserRole → Bool
is_admin UserRole.admin = true
is_admin _ = false

abbrev pub is_player : UserRole → Bool
is_player UserRole.player = true
is_player _ = false

abbrev pub is_coach : UserRole → Bool
is_coach UserRole.coach = true
is_coach _ = false

-- A stage's place in its enum, by which two stages are compared.
abbrev pub stage_eq : ProcessingJobStage → ProcessingJobStage → Bool
stage_eq ProcessingJobStage.transcode ProcessingJobStage.transcode = true
stage_eq ProcessingJobStage.detection ProcessingJobStage.detection = true
stage_eq ProcessingJobStage.tracking ProcessingJobStage.tracking = true
stage_eq ProcessingJobStage.court_mapping ProcessingJobStage.court_mapping = true
stage_eq ProcessingJobStage.events ProcessingJobStage.events = true
stage_eq ProcessingJobStage.metrics ProcessingJobStage.metrics = true
stage_eq _ _ = false

abbrev pub is_pending : ProcessingJobStatus → Bool
is_pending ProcessingJobStatus.pending = true
is_pending _ = false

abbrev pub is_running : ProcessingJobStatus → Bool
is_running ProcessingJobStatus.running = true
is_running _ = false

abbrev pub is_completed : ProcessingJobStatus → Bool
is_completed ProcessingJobStatus.completed = true
is_completed _ = false

abbrev pub is_failed : ProcessingJobStatus → Bool
is_failed ProcessingJobStatus.failed = true
is_failed _ = false

-- `status in [PENDING, RUNNING]`
abbrev pub is_open : ProcessingJobStatus → Bool
is_open ProcessingJobStatus.pending = true
is_open ProcessingJobStatus.running = true
is_open _ = false

abbrev pub status_eq : VideoStatus → VideoStatus → Bool
status_eq VideoStatus.pending_upload VideoStatus.pending_upload = true
status_eq VideoStatus.uploading VideoStatus.uploading = true
status_eq VideoStatus.uploaded VideoStatus.uploaded = true
status_eq VideoStatus.transcoding VideoStatus.transcoding = true
status_eq VideoStatus.queued VideoStatus.queued = true
status_eq VideoStatus.processing VideoStatus.processing = true
status_eq VideoStatus.processed VideoStatus.processed = true
status_eq VideoStatus.failed VideoStatus.failed = true
status_eq _ _ = false

-- `status in {...}`
abbrev pub status_in : VideoStatus → List VideoStatus → Bool
status_in s [] = false
status_in s (t ∷ ts) = if status_eq s t then true else status_in s ts

pub data VideoEventType : Type 0 where
  shot_attempt shot_made rebound pass : VideoEventType

abbrev pub event_type_value : VideoEventType → Text
event_type_value VideoEventType.shot_attempt = codes "shot_attempt"
event_type_value VideoEventType.shot_made = codes "shot_made"
event_type_value VideoEventType.rebound = codes "rebound"
event_type_value VideoEventType.pass = codes "pass"

abbrev pub event_type_eq : VideoEventType → VideoEventType → Bool
event_type_eq VideoEventType.shot_attempt VideoEventType.shot_attempt = true
event_type_eq VideoEventType.shot_made VideoEventType.shot_made = true
event_type_eq VideoEventType.rebound VideoEventType.rebound = true
event_type_eq VideoEventType.pass VideoEventType.pass = true
event_type_eq _ _ = false

abbrev pub review_value : ReviewStatus → Text
review_value ReviewStatus.machine_only = codes "machine_only"
review_value ReviewStatus.needs_review = codes "needs_review"
review_value ReviewStatus.approved = codes "approved"
review_value ReviewStatus.rejected = codes "rejected"

abbrev pub review_eq : ReviewStatus → ReviewStatus → Bool
review_eq ReviewStatus.machine_only ReviewStatus.machine_only = true
review_eq ReviewStatus.needs_review ReviewStatus.needs_review = true
review_eq ReviewStatus.approved ReviewStatus.approved = true
review_eq ReviewStatus.rejected ReviewStatus.rejected = true
review_eq _ _ = false

abbrev pub stage_value : ProcessingJobStage → Text
stage_value ProcessingJobStage.transcode = codes "transcode"
stage_value ProcessingJobStage.detection = codes "detection"
stage_value ProcessingJobStage.tracking = codes "tracking"
stage_value ProcessingJobStage.court_mapping = codes "court_mapping"
stage_value ProcessingJobStage.events = codes "events"
stage_value ProcessingJobStage.metrics = codes "metrics"

abbrev pub role_value : TeamRole → Text
role_value TeamRole.head_coach = codes "head_coach"
role_value TeamRole.assistant_coach = codes "assistant_coach"
role_value TeamRole.manager = codes "manager"
role_value TeamRole.player = codes "player"
role_value TeamRole.captain = codes "captain"

abbrev pub level_value : TeamLevel → Text
level_value TeamLevel.youth = codes "youth"
level_value TeamLevel.aau_club = codes "aau_club"
level_value TeamLevel.middle_school = codes "middle_school"
level_value TeamLevel.high_school = codes "high_school"
level_value TeamLevel.juco = codes "juco"
level_value TeamLevel.college_d3 = codes "college_d3"
level_value TeamLevel.college_d2 = codes "college_d2"
level_value TeamLevel.college_d1 = codes "college_d1"
level_value TeamLevel.professional = codes "professional"
level_value TeamLevel.international = codes "international"
