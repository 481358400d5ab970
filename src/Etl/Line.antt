-- ===== src/Etl/Line.antt =====
-- `_parse_line` of workers/journal_etl.py: a line of a journal file as a row of `paper_events`.
use aurum_platform.Common.{
  ℕ, String, Bool, true, false, Option, none, some, ◌==◌, ◌&&◌, if◌then◌else◌, strip, is_empty,
  ◌<>◌,
}
use aurum_platform.Json.{Value, str, obj, Fields, get, truthy_at}
use Prim.Native.Char.{code}

-- `PaperEvent`, without `ingested_at`
pub record PaperEvent : Type 0 where
  pub event_id : ℕ
  pub ts : ℕ
  pub instrument : Option Value
  pub event_type : String
  pub payload : Fields
  pub source_file : String
  pub source_line : ℕ
  pub event_id_synthetic : Bool

-- What Python and its `uuid`, `json` and `datetime` modules give.
pub record Parsers : Type 0 where
  -- `json.loads`, where a `JSONDecodeError` is `none`
  pub json_loads : String → Option Value
  -- `datetime.fromisoformat` and `uuid.UUID`, where a `ValueError` is `none`
  pub from_iso : String → Option ℕ
  pub parse_uuid : String → Option ℕ
  -- `uuid.uuid5(_SYNTHETIC_NS, f"{file}:{line}:{ts}:{event_type}")`
  pub uuid5 : String → ℕ → String → String → ℕ
  -- `str(v)`
  pub text_of : Value → String

-- `value.replace(" ", "T", 1)`
unfoldable pub with_t : String → String
with_t String.[] = ""
with_t (String.◌∷◌ c s) =
    let rest = with_t s in if code c == b' ' then "T" <> s else String.◌∷◌ c rest

-- `a or b` on what `get` gives
unfoldable pub or_value : Option Value → Option Value → Option Value
or_value a b = if truthy_at a then a else b

-- The time that a value holds: `_parse_ts`
unfoldable pub parse_ts : Parsers → Value → Option ℕ
unfolding with_t
parse_ts ps (str s) = ps.from_iso (with_t s)
parse_ts ps _ = none

module _ (ps : Parsers) where
  -- The identifier of a line, and whether it is synthetic.
  unfoldable pub event_id_of : Option Value → ℕ → ℕ × Bool
  event_id_of raw synthetic = elim (raw) [
    | none ↦ (synthetic, true)
    | some v ↦
        if truthy_at (some v)
        then (elim (ps.parse_uuid (ps.text_of v)) [
          | none ↦ (synthetic, true)
          | some i ↦ (i, false)
        ])
        else (synthetic, true)
  ]

  -- `_parse_line` after the type and the time have been found
  unfoldable pub row_of : String → ℕ → Fields → Value → Value → Option PaperEvent
  unfolding event_id_of
  row_of file line o type ts_raw = elim (parse_ts ps ts_raw) [
    | none ↦ none
    | some ts ↦
        let (i, synthetic) =
          event_id_of (get "event_id" o)
            (ps.uuid5 file line (ps.text_of ts_raw) (ps.text_of type)) in
        some (record {
          event_id = i;
          ts = ts;
          instrument = get "instrument" o;
          event_type = ps.text_of type;
          payload = o;
          source_file = file;
          source_line = line;
          event_id_synthetic = synthetic;
        })
  ]

  -- A line has to have a type and a time.
  unfoldable pub typed_row : String → ℕ → Fields → Option Value → Option Value → Option PaperEvent
  unfolding row_of
  typed_row file line o (some type) (some ts_raw) =
      if truthy_at (some type) && truthy_at (some ts_raw)
      then row_of file line o type ts_raw
      else none
  typed_row file line o _ _ = none

  unfoldable pub parse_json : String → ℕ → Option Value → Option PaperEvent
  unfolding typed_row or_value
  parse_json file line (some (obj o)) =
      typed_row file line o (or_value (get "type" o) (get "event_type" o)) (get "ts" o)
  parse_json file line _ = none

  -- `_parse_line`
  unfoldable pub parse_line : String → ℕ → String → Option PaperEvent
  unfolding parse_json
  parse_line file line raw =
      let text = strip raw in
      if is_empty text then none else parse_json file line (ps.json_loads text)
