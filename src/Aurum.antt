-- ===== src/Aurum.antt =====
-- api/aurum.py: the routes that read the live snapshot and the flags, and those that pause, resume
-- and stop the trading process.
pub mod Control
pub mod Polled
pub mod Closed
pub mod Appends
use aurum_platform.Common.{
  ℕ, String, Bool, true, false, Option, none, some, List, [], ◌∷◌, ◌++◌, ◌<>◌, ◌==◌, ◌&&◌, any,
  str_eq, if◌then◌else◌, strip, lower, codes, same_codes, or_else,
}
use aurum_platform.Json.{Value, bool, arr, obj, Fields, Items, nil, end, field, get}
use aurum_platform.Errors.{app, bad_request, not_found}
use aurum_platform.Exec.{Result, ok, err, Exec, pure, raise, gets, modify, require, ◌>>=◌, ◌>>◌}
use aurum_platform.Models.{World, User, Request, Draws, AuditRow}
use aurum_platform.Services.{Services}
use aurum_platform.Audit.{write_audit}
use aurum_platform.Deps.{client_ip, get_current_user}
use aurum_platform.Control.{
  require_owner, write_pause_flag, remove_pause_flag, write_stop_flag, ControlState,
  read_control_state,
}

-- `ControlActionResponse`
pub record ControlResponse : Type 0 where
  pub request_id : ℕ
  pub action : String
  pub paused : Option Bool
  pub stop_requested : Option Bool

-- `getattr(request.state, "request_id", None) or uuid.uuid4()`
unfoldable pub request_id_of : Request → Draws → ℕ
request_id_of r d = or_else r.request_id d.fallback_request_id

-- `(x_confirm_stop or "").strip().lower() == "yes"`
unfoldable pub confirms : Option String → Bool
unfolding same_codes lower strip
confirms header = same_codes (lower (strip (or_else header ""))) (codes "yes")

-- `snap.get("open_positions") or []`, if it is a list
unfoldable pub positions_in : Option Fields → Items
positions_in none = nil
positions_in (some o) = elim (get "open_positions" o) [ some (arr xs) ↦ xs | _ ↦ nil ]

-- `snap.get("engine")`, if it is a dict
unfoldable pub engine_in : Option Fields → Fields
engine_in none = end
engine_in (some o) = elim (get "engine" o) [ some (obj e) ↦ e | _ ↦ end ]

module _ {C : Type 0} where
  unfoldable pub seen : ℕ → String → World C → Bool
  seen user_id endpoint w = any (λ k. k.0 == user_id && str_eq k.1 endpoint) w.audit_seen

  unfoldable pub first_read : Request → User → String → Exec (World C) (Unit {0})
  unfolding client_ip ◌>>=◌
  first_read r user endpoint = do
    modify (λ w. record w { audit_seen = (user.id, endpoint) ∷ w.audit_seen })
    write_audit (record {
      action = "aurum.read." <> endpoint;
      status = "success";
      user_id = some user.id;
      resource = none;
      ip_address = client_ip r;
      user_agent = r.user_agent;
      request_id = r.request_id;
      metadata = some (field "first_seen_in_session" (bool true) end);
    })

  -- `_audit_polled_read`
  unfoldable pub audit_polled_read : Request → User → String → Exec (World C) (Unit {0})
  unfolding seen first_read ◌>>=◌
  audit_polled_read r user endpoint = do
    known ← gets (seen user.id endpoint)
    if known then pure tt else first_read r user endpoint

  -- `snap` is what `read_current_state` gave: the fields, `None`, or an exception.
  unfoldable pub snapshot_of : Result (Option Fields) → Exec (World C) (Option Fields)
  snapshot_of snap w = (snap, w)

  unfoldable pub found_or_404 : Option Fields → Exec (World C) Fields
  unfolding ◌>>=◌
  found_or_404 none = raise (app not_found "snapshot file not found")
  found_or_404 (some o) = pure o

  -- `aurum_status`, behind the current user
  unfoldable pub status_own : Result (Option Fields) → Request → User → Exec (World C) Fields
  unfolding snapshot_of found_or_404 audit_polled_read ◌>>=◌
  status_own snap r user = do
    read ← snapshot_of snap
    o ← found_or_404 read
    audit_polled_read r user "status"
    pure o

  -- `aurum_open_positions`
  unfoldable pub open_positions_own : Result (Option Fields) → Request → User → Exec (World C) Items
  unfolding snapshot_of audit_polled_read positions_in ◌>>=◌
  open_positions_own snap r user = do
    read ← snapshot_of snap
    audit_polled_read r user "positions.open"
    pure (positions_in read)

  -- `aurum_regime`
  unfoldable pub regime_own : Result (Option Fields) → Request → User → Exec (World C) Fields
  unfolding snapshot_of audit_polled_read engine_in ◌>>=◌
  regime_own snap r user = do
    read ← snapshot_of snap
    audit_polled_read r user "regime"
    pure (engine_in read)

  -- `aurum_control_state`
  unfoldable pub control_state_own : Request → User → Exec (World C) ControlState
  unfolding audit_polled_read ◌>>=◌
  control_state_own r user = do
    state ← gets (λ w. read_control_state w.control_dir)
    audit_polled_read r user "control"
    pure state

  module _ (sv : Services C) where
    -- `aurum_pause`, `aurum_resume` and `aurum_stop`, behind the current user
    unfoldable pub pause_own : Request → Draws → User → Exec (World C) ControlResponse
    unfolding require_owner write_pause_flag request_id_of ◌>>=◌
    pause_own r d user = do
      require_owner user
      write_pause_flag sv d user (request_id_of r d)
      pure (record {
        request_id = request_id_of r d;
        action = "pause";
        paused = some true;
        stop_requested = none;
      })

    unfoldable pub resume_own : Request → Draws → User → Exec (World C) ControlResponse
    unfolding require_owner remove_pause_flag request_id_of ◌>>=◌
    resume_own r d user = do
      require_owner user
      remove_pause_flag sv d user (request_id_of r d)
      pure (record {
        request_id = request_id_of r d;
        action = "resume";
        paused = some false;
        stop_requested = none;
      })

    unfoldable pub stop_own :
        Option String → Request → Draws → User → Exec (World C) ControlResponse
    unfolding require_owner confirms write_stop_flag request_id_of ◌>>=◌
    stop_own header r d user = do
      require_owner user
      require (confirms header)
          (app bad_request "X-Confirm-Stop: yes header required for /aurum/stop")
      write_stop_flag sv d user (request_id_of r d)
      pure (record {
        request_id = request_id_of r d;
        action = "stop";
        paused = none;
        stop_requested = some true;
      })

    -- The routes.
    unfoldable pub aurum_pause : Request → Draws → Exec (World C) ControlResponse
    unfolding ◌>>=◌
    aurum_pause r d = do user ← get_current_user sv r d; pause_own r d user

    unfoldable pub aurum_resume : Request → Draws → Exec (World C) ControlResponse
    unfolding ◌>>=◌
    aurum_resume r d = do user ← get_current_user sv r d; resume_own r d user

    unfoldable pub aurum_stop : Option String → Request → Draws → Exec (World C) ControlResponse
    unfolding ◌>>=◌
    aurum_stop header r d = do user ← get_current_user sv r d; stop_own header r d user

    unfoldable pub aurum_status : Result (Option Fields) → Request → Draws → Exec (World C) Fields
    unfolding ◌>>=◌
    aurum_status snap r d = do user ← get_current_user sv r d; status_own snap r user

    unfoldable pub aurum_open_positions :
        Result (Option Fields) → Request → Draws → Exec (World C) Items
    unfolding ◌>>=◌
    aurum_open_positions snap r d = do
      user ← get_current_user sv r d
      open_positions_own snap r user

    unfoldable pub aurum_regime : Result (Option Fields) → Request → Draws → Exec (World C) Fields
    unfolding ◌>>=◌
    aurum_regime snap r d = do user ← get_current_user sv r d; regime_own snap r user

    unfoldable pub aurum_control_state : Request → Draws → Exec (World C) ControlState
    unfolding ◌>>=◌
    aurum_control_state r d = do user ← get_current_user sv r d; control_state_own r user
