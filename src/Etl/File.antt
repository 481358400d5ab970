-- ===== src/Etl/File.antt =====
-- What `_process_file` of workers/journal_etl.py does to the tables, whatever the batch size and
-- whichever statement the database refuses.
use aurum_platform.Common.{
  ℕ, ◌+◌, ◌≡◌, refl, sym, ap, ◌∙◌, String, Option, none, some, List, [], length, arith,
}
use aurum_platform.Exec.{Result, ok, err, continue, ◌>>=◌, pure, modify}
use aurum_platform.Etl.{
  PaperEvent, Checkpoint, Parsers, Tables, Store, Progress, insert_all, answer, execute, flush,
  scan, save_checkpoint, update_checkpoint, commit, process_lines, or_rollback, process_file,
}
use aurum_platform.Etl.Scan.{
  rows_from, last_of, At, Post, bind_Post, Answered, answer-Answered, Flushed, flush-Flushed,
  scan-Ended,
}

-- The checkpoint after a file whose last row is given.
unfoldable checkpoint_at : String → Option PaperEvent → Option Checkpoint → Option Checkpoint
checkpoint_at file none old = old
checkpoint_at file (some row) old = some (record {
  last_processed_file = some file;
  last_processed_ts = some row.ts;
  last_event_id = some row.event_id;
})

-- The tables that a file is to leave: its rows are in, and the checkpoint is at the last of them.
unfoldable pub ingested : Parsers → String × List String → Tables → Tables
unfolding rows_from last_of checkpoint_at
ingested ps (file, lines) t =
    let rows = rows_from ps file 1 lines in
    record {
      events = insert_all rows t.events;
      checkpoint = checkpoint_at file (last_of none rows) t.checkpoint;
    }

module _ (t v : Tables) where
  -- The view has the tables `v`, and nothing is committed.
  Staged : ℕ → Store → Type 0
  Staged n s = (s.view ≡ v) × (s.committed ≡ t)

  answer-Staged :
      (x : Tables) (k : ℕ) (s : Store)
      → x ≡ v
      → s.committed ≡ t
      → Post Staged t (answer (x, k) s s.faults)
  unfolding Post Staged Answered
  answer-Staged x k s e c = cases (answer (x, k) s s.faults) (answer-Answered (x, k) s s.faults)
    where
      cases : (r : Result ℕ × Store) → Answered (x, k) s r → Post Staged t r
      cases (ok n, u) (_, seen, kept) = (seen ∙ e, kept ∙ c)
      cases (err e, u) kept = kept ∙ c

  commit-Post :
      (s : Store) → Staged 0 s → Post (λ n u. (u.view ≡ v) × (u.committed ≡ v)) t (commit s)
  unfolding Post Staged Answered commit execute ◌>>=◌ modify pure
  commit-Post s (seen, c) =
      cases (answer (s.view, 0) s s.faults) (answer-Answered (s.view, 0) s s.faults)
    where
      cases :
          (x : Result ℕ × Store)
          → Answered (s.view, 0) s x
          → Post
              (λ n u. (u.view ≡ v) × (u.committed ≡ v))
              t
              (continue x.0 (λ n u. (ok n, record u { committed = u.view })) x.1)
      cases (ok n, u) (_, same, kept) = (same ∙ seen, same ∙ seen)
      cases (err e, u) kept = kept ∙ c

module _ (ps : Parsers) (batch_size : ℕ) (file : String) (lines : List String) (t : Tables) where
  save_checkpoint-Staged :
      (last : Option PaperEvent) (s : Store)
      → last ≡ last_of none (rows_from ps file 1 lines)
      → s.view.events ≡ insert_all (rows_from ps file 1 lines) t.events
      → s.view.checkpoint ≡ t.checkpoint
      → s.committed ≡ t
      → Post (Staged t (ingested ps (file, lines) t)) t (save_checkpoint file last s)
  unfolding Post Staged save_checkpoint update_checkpoint execute ingested pure
  save_checkpoint-Staged none s l e k c = (
    λ i. record {
      events = e i;
      checkpoint = (k ∙ ap (λ x. checkpoint_at file x t.checkpoint) l) i;
    },
    c,
  )
  save_checkpoint-Staged (some row) s l e k c =
      answer-Staged t (ingested ps (file, lines) t) _ 1 s
        (λ i. record { events = e i; checkpoint = checkpoint_at file (l i) t.checkpoint }) c

  -- What `_process_file` leaves: all of the file with its counts, or nothing of it.
  unfoldable pub Processed : Result (ℕ × ℕ) × Store → Type 0
  Processed (ok (parsed, inserted), s) =
      (s.committed ≡ ingested ps (file, lines) t)
      × (s.view ≡ ingested ps (file, lines) t)
      × (parsed ≡ length (rows_from ps file 1 lines))
      × (length s.committed.events ≡ length t.events + inserted)
  Processed (err e, s) = (s.committed ≡ t) × (s.view ≡ t)

  -- The same before the rollback.
  Done : ℕ × ℕ → Store → Type 0
  Done r s =
      (s.committed ≡ ingested ps (file, lines) t)
      × (s.view ≡ ingested ps (file, lines) t)
      × (r.0 ≡ length (rows_from ps file 1 lines))
      × (length s.committed.events ≡ length t.events + r.1)

  abbrev start : Progress
  start = record { parsed = 0; inserted = 0; last = none; batch = [] }

  finish-Done :
      (q : Progress) (s : Store)
      → Flushed t (rows_from ps file 1 lines) q s
      → Post Done t
          ((save_checkpoint file q.last >>= λ _. commit >>= λ _. pure (q.parsed, q.inserted)) s)
  unfolding Flushed Done Staged Post ◌>>=◌ insert_all ingested pure
  finish-Done q s (h, e) =
      bind_Post (Staged t (ingested ps (file, lines) t)) Done t (save_checkpoint file q.last s) _
        (save_checkpoint-Staged q.last s h.last flushed h.checkpoint h.kept)
        (λ n u (seen, kept).
          bind_Post _ Done t (commit u) _
            (commit-Post t (ingested ps (file, lines) t) u (seen, kept))
            (λ m x (view, committed). (
              committed,
              view,
              h.parsed,
              ap (λ v. length v.events) committed ∙ sym (ap length flushed) ∙ h.grown,
            )))
    where
      flushed : s.view.events ≡ insert_all (rows_from ps file 1 lines) t.events
      flushed = ap (λ b. insert_all b s.view.events) (sym e) ∙ h.events

  rolled_back : (x : Result (ℕ × ℕ) × Store) → Post Done t x → Processed (or_rollback x)
  unfolding Post Done Processed or_rollback
  rolled_back (ok r, s) h = h
  rolled_back (err e, s) h = (h, h)

  -- For any batch size, any lines and any statements that the database refuses: when `_process_file`
  -- returns, the committed table has exactly the rows of the file added that it did not have, in
  -- order, the checkpoint is at the last row of the file, and the two counts are those of the rows
  -- and of the new rows. When it raises, what is committed is as before, and so is the view.
  pub process_file_all_or_nothing :
      (s : Store)
      → s.view ≡ t
      → s.committed ≡ t
      → Processed (process_file ps batch_size (file, lines) s)
  unfolding process_file process_lines ◌>>=◌ insert_all last_of
  process_file_all_or_nothing s view kept = rolled_back (process_lines ps batch_size file lines s) (
      bind_Post (At t rows) Done t (scan ps batch_size file 1 lines start s) _
        (scan-Ended t ps batch_size file 1 lines [] start s begins)
        (λ p u h.
          bind_Post (Flushed t rows) Done t (flush p u) _ (flush-Flushed t rows p u h) finish-Done))
    where
      rows : List PaperEvent
      rows = rows_from ps file 1 lines

      begins : At t [] start s
      begins = record {
        parsed = refl;
        events = ap (λ v. v.events) view;
        grown = omega (arith, ap (λ v. length v.events) view);
        last = refl;
        checkpoint = ap (λ v. v.checkpoint) view;
        kept = kept;
      }
