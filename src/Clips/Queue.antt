-- ===== src/Clips/Queue.antt =====
-- proposals.py, `build_clip_proposals`: what the review queue holds.
use mathlib.Core.List.{Perm}
use mathlib.Core.List.Perm
use nextballup.Prelude.{ℕ, ◌≡◌, Bool, false, Option, List, not, ◌&&◌}
use nextballup.Core.Text.{Text, codes, text_eq}
use nextballup.Clips.{ClipEvent, ClipProposal, clip_window}

-- The review that a proposal asks for is still to be made.
abbrev pub AwaitsReview : Bool → Text → Type 0
AwaitsReview include_rejected status =
    (text_eq status (codes "approved") ≡ false)
    × ((text_eq status (codes "rejected") && not include_rejected) ≡ false)

-- What a proposal says of its event and its window, and what it should say.
abbrev pub Claim : Type 0
Claim = ℕ × Text × Text × ℕ × ℕ

abbrev pub claim_of : ClipProposal → Claim
claim_of p = (p.source_event_id, p.event_type, p.review_status, p.start_time_ms, p.end_time_ms)

abbrev pub claim_for : Option ℕ → ClipEvent → Claim
claim_for duration e =
    (e.id, e.event_type, e.review_status, (clip_window e duration).0, (clip_window e duration).1)
