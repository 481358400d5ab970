-- ===== src/Etl/Backoff.antt =====
-- How long `run_loop` of workers/journal_etl.py sleeps between its passes.
use aurum_platform.Common.{ℕ, ◌≤◌, min, max}

-- The loop never sleeps longer than the poll interval or 30 seconds, and never less than the poll
-- interval or one second.
abbrev pub Bounded : ℕ → ℕ → Type 0
Bounded interval s = (s ≤ max interval 30) × (min interval 1 ≤ s)
