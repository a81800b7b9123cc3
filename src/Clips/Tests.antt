-- ===== src/Clips/Tests.antt =====
-- The review queue at two events.
use nextballup.Prelude.{List, ℕ, ◌≡◌, refl, false, none, some, [], ◌∷◌, map}
use nextballup.Core.Text.{Text, codes, decimal}
use nextballup.Clips.{ClipEvent, build_clip_proposals}

abbrev shot : ClipEvent
shot = record {
  id = 1;
  event_type = codes "shot_made";
  event_time_ms = 65000;
  confidence = some 900;
  review_status = codes "needs_review";
  created_at = some 5;
  metadata = none;
}

abbrev steal : ClipEvent
steal = record shot { id = 2; event_type = codes "ball_steal"; event_time_ms = 70000 }

shot_reason :
    map (λ p. p.reason) (build_clip_proposals decimal (shot ∷ []) (some 66000000) 5 false)
    ≡ codes "Alpha made shot candidate at 01:05. Coach review required." ∷ []
unfolding build_clip_proposals
shot_reason = refl

steal_window :
    map {B = Text × ℕ × ℕ}
      (λ p. (p.label, p.start_time_ms, p.end_time_ms))
      (build_clip_proposals decimal (steal ∷ []) (some 66000000) 5 false)
    ≡ (codes "Ball Steal", 63000, 66000) ∷ []
unfolding build_clip_proposals
steal_window = refl
