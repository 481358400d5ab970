-- ===== src/Tests/Journal.antt =====
-- The journal files.
use aurum_platform.Common.{
  ◌≡◌, refl, String, Bool, true, false, none, some, List, [], ◌∷◌, length, ℕ,
}
use aurum_platform.Json.{str, obj, end, field}
use aurum_platform.Exec.{ok}
use aurum_platform.Etl.{Parsers, Tables, Store, process_file, run_once, resume_from}
use aurum_platform.Etl.Scan.{rows_from}
use aurum_platform.Etl.File.{Processed, process_file_all_or_nothing}
use aurum_platform.Etl.Passes.{second_pass_inserts_nothing}
use aurum_platform.Etl.Walk.{Walked, run_once-Walked, run_once_completes, ingest_all}

abbrev parsers : Parsers
parsers = record {
  json_loads = λ raw. some (obj (field "type" (str "tick") (field "ts" (str "2026") end)));
  from_iso = λ text. some 5;
  parse_uuid = λ text. none;
  uuid5 = λ file line ts type. line;
  text_of = λ v. "text";
}

abbrev lines : List String
lines = "a" ∷ "" ∷ "b" ∷ []

abbrev empty_tables : Tables
empty_tables = record { events = []; checkpoint = none }

abbrev store : List Bool → Store
store faults = record { view = empty_tables; committed = empty_tables; faults = faults }

-- The second statement is refused.
process_file_all_or_nothing_example :
    Processed parsers 1 "j" lines empty_tables
      (process_file parsers 1 ("j", lines) (store (false ∷ true ∷ [])))
process_file_all_or_nothing_example =
    process_file_all_or_nothing parsers 1 "j" lines empty_tables (store (false ∷ true ∷ [])) refl
      refl

second_pass_inserts_nothing_example :
    let first = process_file parsers 2 ("j", lines) (store []) in
    let second = process_file parsers 2 ("j", lines) first.1 in
    (second.0 ≡ ok (length (rows_from parsers "j" 1 lines), 0))
    × (second.1.committed.events ≡ first.1.committed.events)
second_pass_inserts_nothing_example =
    second_pass_inserts_nothing parsers 2 "j" lines (store []) refl refl

-- The fourth statement is refused, the insertion for the second file: the first file is in.
run_once-Walked_example : Walked parsers (("j", lines) ∷ ("k", lines) ∷ []) empty_tables (
    run_once parsers 5
      (("j", lines) ∷ ("k", lines) ∷ [])
      (store (false ∷ false ∷ false ∷ true ∷ [])))
unfolding resume_from
run_once-Walked_example =
    run_once-Walked parsers 5 (("j", lines) ∷ ("k", lines) ∷ [])
      (store (false ∷ false ∷ false ∷ true ∷ []))

run_once_completes_example :
    (r : ℕ × ℕ) × ((run_once parsers 5 (("j", lines) ∷ []) (store [])).0 ≡ ok r)
    × ((run_once parsers 5 (("j", lines) ∷ []) (store [])).1.committed
        ≡ ingest_all parsers (("j", lines) ∷ []) empty_tables)
unfolding resume_from
run_once_completes_example = run_once_completes parsers 5 (("j", lines) ∷ []) (store []) refl
