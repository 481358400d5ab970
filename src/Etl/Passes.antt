-- ===== src/Etl/Passes.antt =====
-- Passes of workers/journal_etl.py over a file in which the database refuses no statement.
use aurum_platform.Common.{
  ℕ, suc, ◌≡◌, refl, sym, ap, ◌∙◌, String, Bool, Option, none, some, List, [], ◌∷◌, ◌++◌, length,
  Bool-cases, inl, inr, arith, leb,
}
use aurum_platform.Exec.{Result, ok, err, Exec, continue, ◌>>=◌}
use aurum_platform.Etl.{
  PaperEvent, Parsers, Tables, Store, Progress, parse_line, insert_batch, answer, execute, add_row,
  flush, scan, per_row, save_checkpoint, update_checkpoint, commit, process_lines, or_rollback,
  process_file,
}
use aurum_platform.Etl.Ingest.{insert_all_twice}
use aurum_platform.Etl.Scan.{rows_from}
use aurum_platform.Etl.File.{ingested, Processed, process_file_all_or_nothing}

-- It returned, and no statement to come is refused.
unfoldable pub Fine : {A : Type 0} → Result A × Store → Type 0
Fine (ok a, s) = s.faults ≡ []
Fine (err e, s) = ⊥

pub bind_Fine :
    {A B : Type 0} (x : Result A × Store) (f : A → Exec Store B)
    → Fine x
    → ((a : A) (s : Store) → s.faults ≡ [] → Fine (f a s))
    → Fine (continue x.0 f x.1)
unfolding Fine
bind_Fine (ok a, s) f h k = k a s h
bind_Fine (err e, s) f h k = absurd h

answer-Fine :
    (x : Tables × ℕ) (s : Store) (fs : List Bool) → s.faults ≡ [] → fs ≡ [] → Fine (answer x s fs)
unfolding Fine answer
answer-Fine (t, n) s [] h e = h
answer-Fine (t, n) s (b ∷ fs) h e = cc

insert_batch-Fine :
    (rows : List PaperEvent) (s : Store) → s.faults ≡ [] → Fine (insert_batch rows s)
unfolding Fine insert_batch execute
insert_batch-Fine [] s h = h
insert_batch-Fine (row ∷ rows) s h = answer-Fine _ s s.faults h h

flush-Fine : (p : Progress) (s : Store) → s.faults ≡ [] → Fine (flush p s)
unfolding Fine flush ◌>>=◌
flush-Fine p s h = bind_Fine (insert_batch p.batch s) _ (insert_batch-Fine p.batch s h) (λ n u e. e)

add_row-Fine :
    (batch_size : ℕ) (row : PaperEvent) (p : Progress) (s : Store)
    → s.faults ≡ []
    → Fine (add_row batch_size row p s)
unfolding Fine add_row
add_row-Fine batch_size row p s h =
    elim (Bool-cases (leb batch_size (length (p.batch ++ row ∷ [])))) [
      | inl full ↦ simp full (flush-Fine _ s h)
      | inr room ↦ simp room h
    ]

row-Fine :
    (batch_size : ℕ) (x : Option PaperEvent) (go : Progress → Exec Store Progress) (p : Progress)
    (s : Store)
    → ((q : Progress) (u : Store) → u.faults ≡ [] → Fine (go q u))
    → s.faults ≡ []
    → Fine (per_row x (go p) (λ row. add_row batch_size row p >>= go) s)
unfolding per_row ◌>>=◌
row-Fine batch_size none go p s k h = k p s h
row-Fine batch_size (some row) go p s k h =
    bind_Fine (add_row batch_size row p s) go (add_row-Fine batch_size row p s h) k

scan-Fine :
    (ps : Parsers) (batch_size : ℕ) (file : String) (line : ℕ) (lines : List String) (p : Progress)
    (s : Store)
    → s.faults ≡ []
    → Fine (scan ps batch_size file line lines p s)
unfolding Fine scan
scan-Fine ps n file line [] p s h = h
scan-Fine ps n file line (raw ∷ rest) p s h =
    row-Fine n (parse_line ps file line raw) (scan ps n file (suc line) rest) p s
      (λ q u. scan-Fine ps n file (suc line) rest q u) h

save_checkpoint-Fine :
    (file : String) (last : Option PaperEvent) (s : Store)
    → s.faults ≡ []
    → Fine (save_checkpoint file last s)
unfolding Fine save_checkpoint update_checkpoint execute
save_checkpoint-Fine file none s h = h
save_checkpoint-Fine file (some row) s h = answer-Fine _ s s.faults h h

commit-Fine : (s : Store) → s.faults ≡ [] → Fine (commit s)
unfolding Fine commit execute ◌>>=◌
commit-Fine s h =
    bind_Fine (answer (s.view, 0) s s.faults) _ (answer-Fine _ s s.faults h h) (λ n u e. e)

or_rollback-Fine : {A : Type 0} (x : Result A × Store) → Fine x → Fine (or_rollback x)
unfolding Fine or_rollback
or_rollback-Fine (ok a, s) h = h
or_rollback-Fine (err e, s) h = absurd h

pub process_file-Fine :
    (ps : Parsers) (batch_size : ℕ) (f : String × List String) (s : Store)
    → s.faults ≡ []
    → Fine (process_file ps batch_size f s)
unfolding process_file process_lines ◌>>=◌ Fine
process_file-Fine ps n (file, lines) s h = or_rollback-Fine (process_lines ps n file lines s) (
    bind_Fine (scan ps n file 1 lines _ s) _ (scan-Fine ps n file 1 lines _ s h) (λ p u e.
      bind_Fine (flush p u) _ (flush-Fine p u e) (λ q v e'.
        bind_Fine (save_checkpoint file q.last v) _ (save_checkpoint-Fine file q.last v e')
          (λ _ x e''. bind_Fine (commit x) _ (commit-Fine x e'') (λ _ y e3. e3)))))

module _ (ps : Parsers) (batch_size : ℕ) (file : String) (lines : List String) where
  -- A pass over tables that already have the file.
  nothing_new :
      (t : Tables) (y : Result (ℕ × ℕ) × Store)
      → Processed ps batch_size file lines (ingested ps (file, lines) t) y
      → Fine y
      → (y.0 ≡ ok (length (rows_from ps file 1 lines), 0))
        × (y.1.committed.events ≡ (ingested ps (file, lines) t).events)
  unfolding Processed Fine ingested
  nothing_new t (err e, u) h f = absurd f
  nothing_new t (ok (parsed, inserted), u) (c, v, p, g) f = (λ i. ok (p i, none_new i), same)
    where
      same : u.committed.events ≡ (ingested ps (file, lines) t).events
      same = ap (λ v. v.events) c ∙ insert_all_twice (rows_from ps file 1 lines) t.events

      none_new : inserted ≡ 0
      none_new = omega (arith, ap length same, g)

  after_first :
      (t : Tables) (x : Result (ℕ × ℕ) × Store)
      → Processed ps batch_size file lines t x
      → Fine x
      → ((process_file ps batch_size (file, lines) x.1).0
          ≡ ok (length (rows_from ps file 1 lines), 0))
        × ((process_file ps batch_size (file, lines) x.1).1.committed.events ≡ x.1.committed.events)
  unfolding Processed Fine
  after_first t (err e, u) h f = absurd f
  after_first t (ok r, u) (saved, view, _, _) f =
      let result =
        nothing_new t (process_file ps batch_size (file, lines) u)
          (process_file_all_or_nothing ps batch_size file lines (ingested ps (file, lines) t) u view
            saved)
          (process_file-Fine ps batch_size (file, lines) u f) in
      (result.0, result.1 ∙ sym (ap (λ v. v.events) saved))

  -- Where the database refuses nothing, a second pass over a file, with any batch size, returns: it
  -- parses all the rows, inserts none of them, and the committed events stay as they are.
  pub second_pass_inserts_nothing :
      (s : Store)
      → s.view ≡ s.committed
      → s.faults ≡ []
      → let first = process_file ps batch_size (file, lines) s in
        let second = process_file ps batch_size (file, lines) first.1 in
        (second.0 ≡ ok (length (rows_from ps file 1 lines), 0))
        × (second.1.committed.events ≡ first.1.committed.events)
  second_pass_inserts_nothing s e h =
      after_first s.committed (process_file ps batch_size (file, lines) s)
        (process_file_all_or_nothing ps batch_size file lines s.committed s e refl)
        (process_file-Fine ps batch_size (file, lines) s h)
