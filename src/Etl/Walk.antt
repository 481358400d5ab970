-- ===== src/Etl/Walk.antt =====
-- A pass of `run_once` of workers/journal_etl.py over the journal files.
use aurum_platform.Common.{ℕ, zero, suc, ◌+◌, ◌≡◌, refl, String, List, [], ◌∷◌}
use aurum_platform.Exec.{Result, ok, err, Exec, continue, ◌>>=◌, pure}
use aurum_platform.Etl.{Parsers, Tables, Store, process_file, process_files, resume_from, run_once}
use aurum_platform.Etl.Passes.{Fine, bind_Fine, process_file-Fine}
use aurum_platform.Etl.File.{ingested, Processed, process_file_all_or_nothing}

-- The tables that the files are to leave, one after the other.
unfoldable pub ingest_all : Parsers → List (String × List String) → Tables → Tables
ingest_all ps [] t = t
ingest_all ps (f ∷ fs) t = ingest_all ps fs (ingested ps f t)

-- The first files of a list.
unfoldable pub first : ℕ → List (String × List String) → List (String × List String)
first zero fs = []
first (suc n) [] = []
first (suc n) (f ∷ fs) = f ∷ first n fs

module _ (ps : Parsers) where
  -- What a pass over the files leaves: all of them if it returns, and if it raises the first ones,
  -- each whole.
  unfoldable pub Walked : List (String × List String) → Tables → Result (ℕ × ℕ) × Store → Type 0
  Walked fs t (ok r, s) = s.committed ≡ ingest_all ps fs t
  Walked fs t (err e, s) = (n : ℕ) × (s.committed ≡ ingest_all ps (first n fs) t)

  module _ (batch_size : ℕ) (t : Tables) where
    one_more :
        (f : String × List String) (fs : List (String × List String)) (x : Result (ℕ × ℕ) × Store)
        → Walked fs (ingested ps f t) x
        → Walked (f ∷ fs) t x
    unfolding Walked ingest_all first
    one_more f fs (ok r, s) h = h
    one_more f fs (err e, s) (n, h) = (suc n, h)

    after_file :
        (file : String) (lines : List String) (fs : List (String × List String))
        (x : Result (ℕ × ℕ) × Store) (go : ℕ × ℕ → Exec Store (ℕ × ℕ))
        → Processed ps batch_size file lines t x
        → ((r : ℕ × ℕ) (s : Store)
            → s.view ≡ ingested ps (file, lines) t
            → s.committed ≡ ingested ps (file, lines) t
            → Walked fs (ingested ps (file, lines) t) (go r s))
        → Walked ((file, lines) ∷ fs) t (continue x.0 go x.1)
    unfolding Processed
    after_file file lines fs (ok r, s) go (saved, view, _, _) rest =
        one_more (file, lines) fs (go r s) (rest r s view saved)
    after_file file lines fs (err e, s) go (kept, _) rest =
        unfold Walked ingest_all first in (0, kept)

  process_files-Walked :
      (batch_size : ℕ) (fs : List (String × List String)) (totals : ℕ × ℕ) (t : Tables) (s : Store)
      → s.view ≡ t
      → s.committed ≡ t
      → Walked fs t (process_files ps batch_size fs totals s)
  unfolding process_files ◌>>=◌ Walked ingest_all pure
  process_files-Walked n [] totals t s view kept = kept
  process_files-Walked n ((file, lines) ∷ fs) (parsed, inserted) t s view kept =
      after_file n t file lines fs (process_file ps n (file, lines) s) _
        (process_file_all_or_nothing ps n file lines t s view kept)
        (λ r u view' kept'.
          process_files-Walked n fs (parsed + r.0, inserted + r.1) (ingested ps (file, lines) t) u
            view' kept')

  -- A pass over the journal files begins at the file of the checkpoint. When it returns, the
  -- committed tables are those that all these files leave, one after the other; when it raises, they
  -- are those that the first ones leave, each of them whole, whichever statements were refused.
  pub run_once-Walked :
      (batch_size : ℕ) (files : List (String × List String)) (s : Store)
      → Walked
          (resume_from s.committed.checkpoint files)
          s.committed
          (run_once ps batch_size files s)
  unfolding run_once
  run_once-Walked n files s =
      process_files-Walked n (resume_from s.committed.checkpoint files) (0, 0) s.committed
        (record s { view = s.committed }) refl refl

  process_files-Fine :
      (batch_size : ℕ) (fs : List (String × List String)) (totals : ℕ × ℕ) (s : Store)
      → s.faults ≡ []
      → Fine (process_files ps batch_size fs totals s)
  unfolding process_files ◌>>=◌ Fine pure
  process_files-Fine n [] totals s h = h
  process_files-Fine n (f ∷ fs) (parsed, inserted) s h =
      bind_Fine (process_file ps n f s) _ (process_file-Fine ps n f s h)
        (λ r u e. process_files-Fine n fs (parsed + r.0, inserted + r.1) u e)

  returned_Walked :
      (fs : List (String × List String)) (t : Tables) (x : Result (ℕ × ℕ) × Store)
      → Walked fs t x
      → Fine x
      → (r : ℕ × ℕ) × (x.0 ≡ ok r) × (x.1.committed ≡ ingest_all ps fs t)
  unfolding Walked Fine
  returned_Walked fs t (ok r, s) h f = (r, refl, h)
  returned_Walked fs t (err e, s) h f = absurd f

  -- Where the database refuses no statement, a pass over the journal files returns, and the committed
  -- tables are those that the files from that of the checkpoint on leave, one after the other.
  pub run_once_completes :
      (batch_size : ℕ) (files : List (String × List String)) (s : Store)
      → s.faults ≡ []
      → (r : ℕ × ℕ) × ((run_once ps batch_size files s).0 ≡ ok r)
        × ((run_once ps batch_size files s).1.committed
            ≡ ingest_all ps (resume_from s.committed.checkpoint files) s.committed)
  unfolding run_once
  run_once_completes n files s h =
      returned_Walked (resume_from s.committed.checkpoint files) s.committed _
        (run_once-Walked n files s)
        (process_files-Fine n (resume_from s.committed.checkpoint files) (0, 0)
          (record s { view = s.committed }) h)
