-- ===== src/Etl/Ingest.antt =====
-- The statement `INSERT … ON CONFLICT (event_id) DO NOTHING` of workers/journal_etl.py.
use aurum_platform.Common.{
  ℕ, ◌+◌, ◌≡◌, refl, ◌∙◌, Bool, true, false, List, [], ◌∷◌, ◌++◌, ==-refl, length, length-append,
  All, any, Bool-cases, inl, inr, arith, ◌||◌,
}
use aurum_platform.Etl.{PaperEvent, has_event, insert_event, insert_all, insert_count}

-- Rows in two lots are rows in one.
pub insert_all-append :
    (xs ys : List PaperEvent) (events : List PaperEvent)
    → insert_all (xs ++ ys) events ≡ insert_all ys (insert_all xs events)
unfolding insert_all
insert_all-append [] ys events = refl
insert_all-append (x ∷ xs) ys events = insert_all-append xs ys (insert_event x events)

-- The number that a statement reports is the growth of the table.
pub length-insert_all :
    (rows events : List PaperEvent)
    → length (insert_all rows events) ≡ length events + insert_count rows events
unfolding insert_all insert_count
length-insert_all [] events = omega arith
length-insert_all (row ∷ rows) events = elim (Bool-cases (has_event row.event_id events)) [
  | inl known ↦ simp known (omega (arith, length-insert_all rows events))
  | inr fresh ↦
      simp fresh (
        omega (arith, length-insert_all rows (events ++ row ∷ []), length-append events (row ∷ [])))
]

any-append :
    (p : PaperEvent → Bool) (xs ys : List PaperEvent) → any p (xs ++ ys) ≡ (any p xs || any p ys)
unfolding any
any-append p [] ys = refl
any-append p (x ∷ xs) ys = elim (Bool-cases (p x)) [
  | inl h ↦ simp h refl
  | inr h ↦ simp h (any-append p xs ys)
]

true_or : (a b : Bool) → a ≡ true → (a || b) ≡ true
true_or a b h = simp h refl

or_true : (a : Bool) → (a || true) ≡ true
or_true true = refl
or_true false = refl

-- A statement loses no event.
insert_event_keeps :
    (i : ℕ) (row : PaperEvent) (events : List PaperEvent)
    → has_event i events ≡ true
    → has_event i (insert_event row events) ≡ true
unfolding insert_event has_event
insert_event_keeps i row events h = elim (Bool-cases (has_event row.event_id events)) [
  | inl known ↦ simp known h
  | inr fresh ↦ simp fresh (any-append _ events (row ∷ []) ∙ true_or _ _ h)
]

insert_all_keeps :
    (i : ℕ) (rows events : List PaperEvent)
    → has_event i events ≡ true
    → has_event i (insert_all rows events) ≡ true
unfolding insert_all
insert_all_keeps i [] events h = h
insert_all_keeps i (row ∷ rows) events h =
    insert_all_keeps i rows (insert_event row events) (insert_event_keeps i row events h)

insert_event_has :
    (row : PaperEvent) (events : List PaperEvent)
    → has_event row.event_id (insert_event row events) ≡ true
unfolding insert_event has_event any
insert_event_has row events = elim (Bool-cases (has_event row.event_id events)) [
  | inl known ↦ simp known refl
  | inr fresh ↦ simp fresh (any-append _ events (row ∷ []) ∙ simp (==-refl row.event_id, or_true))
]

Known : List PaperEvent → List PaperEvent → Type 0
Known events = All (λ row. has_event row.event_id events ≡ true)

insert_all-Known : (rows events : List PaperEvent) → Known (insert_all rows events) rows
unfolding insert_all Known
insert_all-Known [] events = tt
insert_all-Known (row ∷ rows) events = (
  insert_all_keeps row.event_id rows _ (insert_event_has row events),
  insert_all-Known rows (insert_event row events),
)

insert_all_unchanged :
    (rows events : List PaperEvent) → Known events rows → insert_all rows events ≡ events
unfolding insert_all insert_event Known
insert_all_unchanged [] events h = refl
insert_all_unchanged (row ∷ rows) events (h, hs) = simp h (insert_all_unchanged rows events hs)

-- The statement is idempotent: the second time it inserts nothing.
pub insert_all_twice :
    (rows events : List PaperEvent)
    → insert_all rows (insert_all rows events) ≡ insert_all rows events
insert_all_twice rows events = insert_all_unchanged rows _ (insert_all-Known rows events)
