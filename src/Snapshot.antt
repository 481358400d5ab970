-- ===== src/Snapshot.antt =====
-- aurum/snapshot.py: the state file of the trading process, with its age.
pub mod Age
use aurum_platform.Common.{
  ℕ, ◌-◌, ◌*◌, String, Bool, true, false, Option, none, some, ltb, if◌then◌else◌,
}
use aurum_platform.Json.{Value, null, bool, float, str, obj, Fields, get, put, truthy}
use aurum_platform.Errors.{Exn, other}
use aurum_platform.Exec.{Result, ok, err}
use aurum_platform.Etl.{with_t}

-- `path.read_text()`, where `unreadable` is an `OSError` other than `FileNotFoundError`.
pub data FileRead : Type 0 where
  missing unreadable : FileRead
  contents : String → FileRead

-- A `datetime`, with and without a time zone. The number is the time in microseconds.
pub data Stamp : Type 0 where
  aware naive : ℕ → Stamp

-- What Python's `json` and `datetime` give.
pub record Formats : Type 0 where
  -- `json.loads`, where a `JSONDecodeError` is `none`
  pub json_loads : String → Option Value
  -- `datetime.fromisoformat`, where a `ValueError` is `none`
  pub from_iso : String → Option Stamp
  -- `t.astimezone(timezone.utc).isoformat()`
  pub utc_iso : ℕ → String
  -- a number of microseconds as a float of seconds
  pub seconds : ℕ → String

module _ (fm : Formats) where
  -- `_parse_ts`: JSON gives texts and no `datetime`.
  unfoldable pub parse_ts : Option Value → Option Stamp
  unfolding with_t truthy
  parse_ts (some (str s)) = if truthy (str s) then fm.from_iso (with_t s) else none
  parse_ts _ = none

  -- The end of `read_current_state`: a time without a zone cannot be subtracted from one with it.
  unfoldable pub decorate : ℕ → ℕ → Fields → Option Stamp → Result (Option Fields)
  unfolding put
  decorate now threshold o none =
      ok (some (put "is_runner_responsive" (bool false) (put "tick_age_seconds" null o)))
  decorate now threshold o (some (aware t)) = ok (
      some (
        put "is_runner_responsive" (bool (ltb (now - t) (threshold * 1000000))) (
          put "tick_age_seconds" (float (fm.seconds (now - t)))
            (put "snapshot_ts" (str (fm.utc_iso t)) o))))
  decorate now threshold o (some (naive t)) = err (other "TypeError")

  unfoldable pub decorate_json : ℕ → ℕ → Option Value → Result (Option Fields)
  unfolding decorate parse_ts get
  decorate_json now threshold (some (obj o)) =
      decorate now threshold o (parse_ts (get "snapshot_ts" o))
  decorate_json now threshold _ = ok none

  -- `read_current_state`, with the threshold in seconds
  unfoldable pub read_current_state : ℕ → ℕ → FileRead → Result (Option Fields)
  unfolding decorate_json
  read_current_state now threshold missing = ok none
  read_current_state now threshold unreadable = ok none
  read_current_state now threshold (contents raw) = decorate_json now threshold (fm.json_loads raw)
