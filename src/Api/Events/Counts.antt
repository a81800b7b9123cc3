-- ===== src/Api/Events/Counts.antt =====
-- videos.py, `_compute_event_summary_counts`: how the counts add up.
use nextballup.Db.{Db}
