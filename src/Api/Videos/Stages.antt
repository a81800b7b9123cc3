-- ===== src/Api/Videos/Stages.antt =====
-- videos.py: the stage of a request is read from the text that `stage.value` prints.
use nextballup.Prelude.{◌≡◌, refl, sym, ap, ◌∙◌, some, [], ◌∷◌, ◌↔◌, find_where, find_where_self}
use nextballup.Core.Text.{Text, text_eq, text_eq_sound}
use nextballup.Core.Enums.{ProcessingJobStage, stage_value}
use nextballup.Api.Videos.{parse_stage}

parse_stage-stage_value :
    (stage : ProcessingJobStage) → parse_stage (stage_value stage) ≡ some stage
unfolding parse_stage find_where text_eq
parse_stage-stage_value ProcessingJobStage.transcode = refl
parse_stage-stage_value ProcessingJobStage.detection = refl
parse_stage-stage_value ProcessingJobStage.tracking = refl
parse_stage-stage_value ProcessingJobStage.court_mapping = refl
parse_stage-stage_value ProcessingJobStage.events = refl
parse_stage-stage_value ProcessingJobStage.metrics = refl

stage_value-parse_stage :
    (t : Text) {stage : ProcessingJobStage} → parse_stage t ≡ some stage → t ≡ stage_value stage
unfolding parse_stage
stage_value-parse_stage t {stage} e = sym (
    text_eq_sound (stage_value stage) t (
      find_where_self (λ s. text_eq (stage_value s) t)
        (ProcessingJobStage.transcode ∷ ProcessingJobStage.detection ∷ ProcessingJobStage.tracking
          ∷ ProcessingJobStage.court_mapping ∷ ProcessingJobStage.events
          ∷ ProcessingJobStage.metrics ∷ [])
        e))

-- The text of a stage is read back as that stage, and no other text is read as it.
pub parse_stage-iff-stage_value :
    (t : Text) (stage : ProcessingJobStage) → (parse_stage t ≡ some stage) ↔ (t ≡ stage_value stage)
parse_stage-iff-stage_value t stage =
    (stage_value-parse_stage t, λ e. ap parse_stage e ∙ parse_stage-stage_value stage)
