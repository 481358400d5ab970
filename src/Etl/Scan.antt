-- ===== src/Etl/Scan.antt =====
-- The loop of `_process_file` of workers/journal_etl.py over the lines of a file, whatever the batch
-- size and whichever statement the database refuses.
use aurum_platform.Common.{
  ℕ, suc, ◌+◌, ◌≡◌, refl, sym, ap, subst, ◌∙◌, String, Bool, true, false, Option, none, some, List,
  [], ◌∷◌, ◌++◌, length, length-append, append_assoc, append-nil, Bool-cases, inl, inr, arith, leb,
}
use aurum_platform.Exec.{Result, ok, err, Exec, continue, ◌>>=◌, pure}
use aurum_platform.Etl.{
  PaperEvent, Parsers, Tables, Store, Progress, parse_line, insert_all, insert_count, insert_batch,
  answer, execute, add_row, flush, scan, per_row,
}
use aurum_platform.Etl.Ingest.{insert_all-append, length-insert_all}

-- The rows of a file, from a line number on: every line that can be parsed, in order.
unfoldable pub rows_from : Parsers → String → ℕ → List String → List PaperEvent
unfolding per_row
rows_from ps file line [] = []
rows_from ps file line (raw ∷ rest) =
    let rows = rows_from ps file (suc line) rest in
    per_row (parse_line ps file line raw) rows (λ row. row ∷ rows)

-- The last of the rows.
unfoldable pub last_of : Option PaperEvent → List PaperEvent → Option PaperEvent
last_of last [] = last
last_of last (row ∷ rows) = last_of (some row) rows

-- The local variables and the session when `done` are the rows so far, in a pass that began with
-- the tables `t`: what is inserted and what waits make up the rows, and nothing is committed.
pub record At (t : Tables) (done : List PaperEvent) (p : Progress) (s : Store) : Type 0 where
  pub parsed : p.parsed ≡ length done
  pub events : insert_all p.batch s.view.events ≡ insert_all done t.events
  pub grown : length s.view.events ≡ length t.events + p.inserted
  pub last : p.last ≡ last_of none done
  pub checkpoint : s.view.checkpoint ≡ t.checkpoint
  pub kept : s.committed ≡ t

-- What holds when a part of the work ends: with an error, nothing is committed.
unfoldable pub Post : {A : Type 0} → (A → Store → Type 0) → Tables → Result A × Store → Type 0
Post Q t (ok a, s) = Q a s
Post Q t (err e, s) = s.committed ≡ t

abbrev pub Ended : Tables → List PaperEvent → Result Progress × Store → Type 0
Ended t done = Post (At t done) t

pub bind_Post :
    {A B : Type 0} (Q : A → Store → Type 0) (R : B → Store → Type 0) (t : Tables)
    (x : Result A × Store) (f : A → Exec Store B)
    → Post Q t x
    → ((a : A) (s : Store) → Q a s → Post R t (f a s))
    → Post R t (continue x.0 f x.1)
unfolding Post
bind_Post Q R t (ok a, s) f h k = k a s h
bind_Post Q R t (err e, s) f h k = h

-- What a statement does that is not refused, and that it commits nothing.
unfoldable pub Answered : Tables × ℕ → Store → Result ℕ × Store → Type 0
Answered (t, n) s (ok m, s') = (m ≡ n) × (s'.view ≡ t) × (s'.committed ≡ s.committed)
Answered (t, n) s (err e, s') = s'.committed ≡ s.committed

pub answer-Answered : (x : Tables × ℕ) (s : Store) (fs : List Bool) → Answered x s (answer x s fs)
unfolding answer Answered
answer-Answered (t, n) s [] = (refl, refl, refl)
answer-Answered (t, n) s (false ∷ fs) = (refl, refl, refl)
answer-Answered (t, n) s (true ∷ fs) = refl

-- The tables after a batch, and the number of rows that it inserts.
unfoldable after_batch : List PaperEvent → Tables → Tables × ℕ
after_batch rows t = (record t { events = insert_all rows t.events }, insert_count rows t.events)

insert_batch-Answered :
    (rows : List PaperEvent) (s : Store)
    → Answered (after_batch rows s.view) s (insert_batch rows s)
unfolding after_batch insert_batch execute insert_all insert_count Answered
insert_batch-Answered [] s = (refl, refl, refl)
insert_batch-Answered (row ∷ rows) s = answer-Answered (after_batch (row ∷ rows) s.view) s s.faults

last_of-append :
    (last : Option PaperEvent) (rows : List PaperEvent) (row : PaperEvent)
    → last_of last (rows ++ row ∷ []) ≡ some row
unfolding last_of
last_of-append last [] row = refl
last_of-append last (r ∷ rows) row = last_of-append (some r) rows row

module _ (t : Tables) where
  -- After `flush` no row waits.
  unfoldable pub Flushed : List PaperEvent → Progress → Store → Type 0
  Flushed done p s = At t done p s × (p.batch ≡ [])

  pub flush-Flushed :
      (done : List PaperEvent) (p : Progress) (s : Store)
      → At t done p s
      → Post (Flushed done) t (flush p s)
  unfolding flush ◌>>=◌ Post Answered after_batch insert_all pure Flushed
  flush-Flushed done p s h = cases (insert_batch p.batch s) (insert_batch-Answered p.batch s)
    where
      cases :
          (x : Result ℕ × Store)
          → Answered (after_batch p.batch s.view) s x
          → Post
              (Flushed done)
              t
              (continue x.0 (λ n. pure (record p { inserted = p.inserted + n; batch = [] })) x.1)
      cases (ok n, s') (counted, seen, kept) = (
        record {
          parsed = h.parsed;
          events = ap (λ v. v.events) seen ∙ h.events;
          grown = omega (
            arith,
            h.grown,
            counted,
            ap (λ v. length v.events) seen,
            length-insert_all p.batch s.view.events,
          );
          last = h.last;
          checkpoint = ap (λ v. v.checkpoint) seen ∙ h.checkpoint;
          kept = kept ∙ h.kept;
        },
        refl,
      )
      cases (err e, s') kept = kept ∙ h.kept

  forget_Flushed :
      (done : List PaperEvent) (x : Result Progress × Store)
      → Post (Flushed done) t x
      → Ended t done x
  unfolding Post Flushed
  forget_Flushed done (ok p, s) h = h.0
  forget_Flushed done (err e, s) h = h

  -- The row joins the batch.
  next-At :
      (done : List PaperEvent) (row : PaperEvent) (p : Progress) (s : Store)
      → At t done p s
      → At t
          (done ++ row ∷ [])
          (record p { parsed = suc p.parsed; last = some row; batch = p.batch ++ row ∷ [] })
          s
  next-At done row p s h = record {
    parsed = omega (arith, h.parsed, length-append done (row ∷ []));
    events =
        insert_all-append p.batch (row ∷ []) s.view.events
        ∙ ap (insert_all (row ∷ [])) h.events
        ∙ sym (insert_all-append done (row ∷ []) t.events);
    grown = h.grown;
    last = sym (last_of-append none done row);
    checkpoint = h.checkpoint;
    kept = h.kept;
  }

  add_row-Ended :
      (batch_size : ℕ) (done : List PaperEvent) (row : PaperEvent) (p : Progress) (s : Store)
      → At t done p s
      → Ended t (done ++ row ∷ []) (add_row batch_size row p s)
  unfolding Post add_row pure
  add_row-Ended batch_size done row p s h =
      elim (Bool-cases (leb batch_size (length (p.batch ++ row ∷ [])))) [
        | inl full ↦ simp full (forget_Flushed _ _ (flush-Flushed _ _ s (next-At done row p s h)))
        | inr room ↦ simp room (next-At done row p s h)
      ]

  row-Ended :
      (batch_size : ℕ) (x : Option PaperEvent) (done rows : List PaperEvent)
      (go : Progress → Exec Store Progress) (p : Progress) (s : Store)
      → ((d : List PaperEvent) (q : Progress) (u : Store)
          → At t d q u
          → Ended t (d ++ rows) (go q u))
      → At t done p s
      → Ended t
          (done ++ per_row x rows (λ row. row ∷ rows))
          (per_row x (go p) (λ row. add_row batch_size row p >>= go) s)
  unfolding per_row ◌>>=◌
  row-Ended batch_size none done rows go p s k h = k done p s h
  row-Ended batch_size (some row) done rows go p s k h =
      bind_Post (At t (done ++ row ∷ [])) _ t (add_row batch_size row p s) go
        (add_row-Ended batch_size done row p s h)
        (λ q u h'.
          subst (λ d. Ended t d (go q u)) (append_assoc done (row ∷ []) rows)
            (k (done ++ row ∷ []) q u h'))

  pub scan-Ended :
      (ps : Parsers) (batch_size : ℕ) (file : String) (line : ℕ) (lines : List String)
      (done : List PaperEvent) (p : Progress) (s : Store)
      → At t done p s
      → Ended t (done ++ rows_from ps file line lines) (scan ps batch_size file line lines p s)
  unfolding Post scan rows_from pure
  scan-Ended ps n file line [] done p s h = subst (λ d. At t d p s) (sym (append-nil done)) h
  scan-Ended ps n file line (raw ∷ rest) done p s h =
      row-Ended n (parse_line ps file line raw) done (rows_from ps file (suc line) rest)
        (scan ps n file (suc line) rest) p s (λ d q u. scan-Ended ps n file (suc line) rest d q u) h
