-- ===== src/Etl.antt =====
-- workers/journal_etl.py: the journal files of the trading process are copied into the table
-- `paper_events`, file by file, in batches, each file in one transaction.
mod Line
pub mod Scan
pub mod Ingest
pub mod File
pub mod Passes
pub mod Walk
pub mod Backoff
unfoldable pub use Line.*
use aurum_platform.Common.{
  ℕ, suc, ◌+◌, ◌*◌, min, String, Bool, true, false, Option, none, some, List, [], ◌∷◌, ◌++◌, ◌==◌,
  ◌||◌, ◌&&◌, not, if◌then◌else◌, any, length, leb, str_eq, strip, is_empty, is_some, ◌<>◌, or_else,
}
use aurum_platform.Json.{Value, str, obj, Fields, get, truthy_at}
use aurum_platform.Errors.{Exn, database}
use aurum_platform.Exec.{Result, ok, err, Exec, pure, gets, modify, ◌>>=◌, ◌>>◌}
use Prim.Native.Char.{code}

-- `EtlCheckpoint`, of the one source `paper_journal`
pub record Checkpoint : Type 0 where
  pub last_processed_file : Option String
  pub last_processed_ts : Option ℕ
  pub last_event_id : Option ℕ

-- The two tables, and a session on them. `faults` says for the statements to come which of them the
-- database refuses; after its end none is refused.
pub record Tables : Type 0 where
  pub events : List PaperEvent
  pub checkpoint : Option Checkpoint

pub record Store : Type 0 where
  pub view : Tables
  pub committed : Tables
  pub faults : List Bool

-- The answer of the database to a statement that would leave the tables `t` and report `n`.
unfoldable pub answer : Tables × ℕ → Store → List Bool → Result ℕ × Store
answer (t, n) s [] = (ok n, record s { view = t })
answer (t, n) s (false ∷ fs) = (ok n, record s { view = t; faults = fs })
answer (t, n) s (true ∷ fs) = (err database, record s { faults = fs })

-- One statement: it changes the view and gives a number, or raises `SQLAlchemyError`.
unfoldable pub execute : (Tables → Tables × ℕ) → Exec Store ℕ
unfolding answer
execute f s = answer (f s.view) s s.faults

unfoldable pub has_event : ℕ → List PaperEvent → Bool
has_event i events = any (λ e. e.event_id == i) events

-- `INSERT … ON CONFLICT (event_id) DO NOTHING`, of one row and of a list of rows, with the number
-- of rows that it inserts.
unfoldable pub insert_event : PaperEvent → List PaperEvent → List PaperEvent
unfolding has_event
insert_event row events = if has_event row.event_id events then events else events ++ row ∷ []

unfoldable pub insert_all : List PaperEvent → List PaperEvent → List PaperEvent
unfolding insert_event
insert_all [] events = events
insert_all (row ∷ rows) events = insert_all rows (insert_event row events)

unfoldable pub insert_count : List PaperEvent → List PaperEvent → ℕ
unfolding insert_event
insert_count [] events = 0
insert_count (row ∷ rows) events =
    (if has_event row.event_id events then 0 else 1) + insert_count rows (insert_event row events)

-- `_insert_batch`
unfoldable pub insert_batch : List PaperEvent → Exec Store ℕ
unfolding execute insert_all insert_count pure
insert_batch [] = pure 0
insert_batch (row ∷ rows) = execute (λ t.
    (record t { events = insert_all (row ∷ rows) t.events }, insert_count (row ∷ rows) t.events))

-- `_update_checkpoint`
unfoldable pub update_checkpoint : String → PaperEvent → Exec Store ℕ
unfolding execute
update_checkpoint file row = execute (λ t. (
  record t {
    checkpoint = some (record {
      last_processed_file = some file;
      last_processed_ts = some row.ts;
      last_event_id = some row.event_id;
    });
  },
  1,
))

-- The local variables of `_process_file`. `last` is the row that `last_ts` and `last_event_id`
-- come from.
pub record Progress : Type 0 where
  pub parsed : ℕ
  pub inserted : ℕ
  pub last : Option PaperEvent
  pub batch : List PaperEvent

-- The rows that wait are inserted, and the batch is empty again.
unfoldable pub flush : Progress → Exec Store Progress
unfolding insert_batch ◌>>=◌
flush p = do n ← insert_batch p.batch; pure (record p { inserted = p.inserted + n; batch = [] })

-- The body of the loop for a row.
unfoldable pub add_row : ℕ → PaperEvent → Progress → Exec Store Progress
unfolding flush pure
add_row batch_size row p =
    let next = record p { parsed = suc p.parsed; last = some row; batch = p.batch ++ row ∷ [] } in
    if leb batch_size (length next.batch) then flush next else pure next

-- `if row is None: continue`, and the rest of the body otherwise
unfoldable pub per_row : {A : Type 0} → Option PaperEvent → A → (PaperEvent → A) → A
per_row none skipped f = skipped
per_row (some row) skipped f = f row

-- `if last_ts is not None and last_event_id is not None`
unfoldable pub save_checkpoint : String → Option PaperEvent → Exec Store ℕ
unfolding update_checkpoint pure
save_checkpoint file none = pure 0
save_checkpoint file (some row) = update_checkpoint file row

-- `session.commit()`, which may fail too
unfoldable pub commit : Exec Store ℕ
unfolding execute ◌>>=◌
commit = do n ← execute (λ t. (t, 0)); modify (λ s. record s { committed = s.view }); pure n

module _ (ps : Parsers) (batch_size : ℕ) (file : String) where
  -- The loop over the lines from a line number on.
  unfoldable pub scan : ℕ → List String → Progress → Exec Store Progress
  unfolding add_row per_row ◌>>=◌
  scan line [] p = pure p
  scan line (raw ∷ rest) p =
      let go = scan (suc line) rest in
      per_row (parse_line ps file line raw) (go p) (λ row. add_row batch_size row p >>= go)

  -- The body of the `try` of `_process_file`
  unfoldable pub process_lines : List String → Exec Store (ℕ × ℕ)
  unfolding scan flush save_checkpoint commit ◌>>=◌
  process_lines lines = do
    p ← scan 1 lines (record { parsed = 0; inserted = 0; last = none; batch = [] })
    q ← flush p
    save_checkpoint file q.last
    commit
    pure (q.parsed, q.inserted)

-- `except SQLAlchemyError: await session.rollback(); raise`
unfoldable pub or_rollback : {A : Type 0} → Result A × Store → Result A × Store
or_rollback (ok a, s) = (ok a, s)
or_rollback (err e, s) = (err e, record s { view = s.committed })

-- `_process_file`
unfoldable pub process_file : Parsers → ℕ → String × List String → Exec Store (ℕ × ℕ)
unfolding process_lines or_rollback
process_file ps batch_size (file, lines) s = or_rollback (process_lines ps batch_size file lines s)

-- The part of the sorted file list that a pass works on: from the file of the checkpoint, or from
-- the first one when there is no checkpoint or its file is gone.
unfoldable pub from_file :
    String → List (String × List String) → Option (List (String × List String))
from_file name [] = none
from_file name ((n, c) ∷ fs) =
    let rest = from_file name fs in if str_eq n name then some ((n, c) ∷ fs) else rest

unfoldable pub resume_from :
    Option Checkpoint → List (String × List String) → List (String × List String)
unfolding from_file is_empty
resume_from none files = files
resume_from (some cp) files = elim cp.last_processed_file [
  | none ↦ files
  | some name ↦ if is_empty name then files else or_else (from_file name files) files
]

-- The loop of `run_once` over the files: the totals of parsed and inserted rows.
unfoldable pub process_files :
    Parsers → ℕ → List (String × List String) → ℕ × ℕ → Exec Store (ℕ × ℕ)
unfolding process_file ◌>>=◌ pure
process_files ps batch_size [] totals = pure totals
process_files ps batch_size (f ∷ fs) (parsed, inserted) = process_file ps batch_size f >>= λ r.
    process_files ps batch_size fs (parsed + r.0, inserted + r.1)

-- `run_once`, over the journal files in the order of their names. The session is closed at the end,
-- which rolls back.
unfoldable pub run_once : Parsers → ℕ → List (String × List String) → Exec Store (ℕ × ℕ)
unfolding process_files resume_from
run_once ps batch_size files s =
    process_files ps batch_size (resume_from s.committed.checkpoint files) (0, 0)
      (record s { view = s.committed })

-- `backoff` of `run_loop`, in seconds, from pass to pass: a pass returns or raises.
unfoldable pub next_backoff : Bool → ℕ → ℕ
next_backoff true backoff = 1
next_backoff false backoff = min (backoff * 2) 30

-- How long `run_loop` sleeps after each pass: the poll interval, or the backoff after an error.
unfoldable pub sleeps : ℕ → ℕ → List Bool → List ℕ
unfolding next_backoff
sleeps interval backoff [] = []
sleeps interval backoff (passed ∷ rest) =
    (if passed then interval else backoff) ∷ sleeps interval (next_backoff passed backoff) rest
