-- ===== src/Control.antt =====
-- aurum/control.py: the flag files by which the platform pauses and stops the trading process, and
-- the two audit trails of each request.
pub mod AtomicWrite
pub mod Flags
use aurum_platform.Common.{
  ℕ, String, Bool, true, false, Option, none, some, List, [], ◌∷◌, ◌++◌, str_eq, is_none, is_some,
  if◌then◌else◌, ◌<>◌,
}
use aurum_platform.Json.{Value, bool, str, Fields, end, field, get, as_text}
use aurum_platform.Errors.{app, forbidden}
use aurum_platform.Exec.{Exec, pure, modify, require, gets, ◌>>=◌, ◌>>◌}
use aurum_platform.Models.{
  World, User, Role, owner, member, viewer, ControlAction, AuditRow, Content, whole, torn, Draws,
}
use aurum_platform.Services.{Services}
use aurum_platform.Session.{modify_db}
use aurum_platform.Audit.{write_audit}

-- The control directory: the files by name.
abbrev pub Files : Type 0
Files = List (String × Content)

unfoldable pub read_file : String → Files → Option Content
read_file name [] = none
read_file name ((n, c) ∷ fs) = if str_eq n name then some c else read_file name fs

unfoldable pub remove_file : String → Files → Files
remove_file name [] = []
remove_file name ((n, c) ∷ fs) =
    let rest = remove_file name fs in if str_eq n name then rest else (n, c) ∷ rest

unfoldable pub write_file : String → Content → Files → Files
write_file name c fs = (name, c) ∷ remove_file name fs

-- `os.replace(source, target)`
unfoldable pub replace_file : String → String → Files → Files
replace_file source target fs = elim (read_file source fs) [
  | none ↦ fs
  | some c ↦ write_file target c (remove_file source fs)
]

abbrev pub pause_flag : String
pause_flag = "pause.flag"

abbrev pub stop_flag : String
stop_flag = "stop.flag"

-- The steps of `_atomic_write_json` in the directory: the temporary file is created, it has a part
-- of the body, it has the body, and it takes the name of the target. What is on the disk when
-- `fsync` fails is no part of the model.
pub data WriteStep : Type 0 where
  create append_part append_rest replace : WriteStep

unfoldable pub write_step : String → String → Fields → WriteStep → Files → Files
write_step tmp target body create fs = write_file tmp torn fs
write_step tmp target body append_part fs = write_file tmp torn fs
write_step tmp target body append_rest fs = write_file tmp (whole body) fs
write_step tmp target body replace fs = replace_file tmp target fs

abbrev pub write_steps : List WriteStep
write_steps = create ∷ append_part ∷ append_rest ∷ replace ∷ []

unfoldable pub run_steps : String → String → Fields → List WriteStep → Files → Files
unfolding write_step
run_steps tmp target body [] fs = fs
run_steps tmp target body (s ∷ ss) fs =
    run_steps tmp target body ss (write_step tmp target body s fs)

-- `f"{path.name}.tmp.{uuid.uuid4().hex[:8]}"`
unfoldable pub tmp_name : Draws → String → String
tmp_name d target = target <> ".tmp." <> d.tmp_suffix

-- `_atomic_write_json`. The keys of the body are sorted in the file, which no reader of a dict can
-- tell.
unfoldable pub atomic_write : Draws → String → Fields → Files → Files
unfolding run_steps tmp_name
atomic_write d target body = run_steps (tmp_name d target) target body write_steps

-- `user.role != UserRole.OWNER`
unfoldable pub is_owner : User → Bool
is_owner u = elim u.role [ owner ↦ true | member ↦ false | viewer ↦ false ]

module _ {C : Type 0} where
  -- `_require_owner`
  unfoldable pub require_owner : User → Exec (World C) (Unit {0})
  unfolding require
  require_owner user = require (is_owner user) (app forbidden "only OWNER may control aurum_2")

  unfoldable pub modify_control : (Files → Files) → Exec (World C) (Unit {0})
  unfolding modify
  modify_control f = modify (λ w. record w { control_dir = f w.control_dir })

  -- `session.add(ControlAction(…))`
  unfoldable pub add_control_action : ControlAction → Exec (World C) (Unit {0})
  unfolding modify_db
  add_control_action a = modify_db (λ d. record d { control_actions = d.control_actions ++ a ∷ [] })

  -- `_record`
  unfoldable pub record_action : User → String → ℕ → Fields → Exec (World C) (Unit {0})
  unfolding add_control_action ◌>>=◌
  record_action user action request_id metadata = do
    write_audit (record {
      action = action;
      status = "success";
      user_id = some user.id;
      resource = none;
      ip_address = as_text (get "ip_address" metadata);
      user_agent = as_text (get "user_agent" metadata);
      request_id = some request_id;
      metadata = some metadata;
    })
    add_control_action (record {
      user_id = some user.id;
      action = action;
      request_id = request_id;
      metadata = some metadata;
    })

  module _ (sv : Services C) where
    -- `_meta`, for the three reasons that the callers give
    unfoldable pub meta : User → ℕ → ℕ → String → Fields
    meta user request_id now reason = field "requested_by_user_id" (str (sv.uuid_text user.id)) (
        field "request_id" (str (sv.uuid_text request_id))
          (field "ts" (str (sv.iso now)) (field "reason" (str reason) end)))

    -- `write_pause_flag`: the state `paused` is returned.
    unfoldable pub write_pause_flag : Draws → User → ℕ → Exec (World C) Bool
    unfolding require_owner modify_control record_action ◌>>=◌
    write_pause_flag d user request_id = do
      require_owner user
      let payload = meta user request_id d.now "pause requested by owner"
      modify_control (atomic_write d pause_flag payload)
      record_action user "aurum.pause" request_id payload
      pure true

    -- `remove_pause_flag`: a flag that is not there is no error.
    unfoldable pub remove_pause_flag : Draws → User → ℕ → Exec (World C) Bool
    unfolding require_owner modify_control record_action ◌>>=◌
    remove_pause_flag d user request_id = do
      require_owner user
      modify_control (remove_file pause_flag)
      record_action user "aurum.resume" request_id
          (meta user request_id d.now "resume requested by owner")
      pure false

    -- `write_stop_flag`: `stop_requested` is returned.
    unfoldable pub write_stop_flag : Draws → User → ℕ → Exec (World C) Bool
    unfolding require_owner modify_control record_action ◌>>=◌
    write_stop_flag d user request_id = do
      require_owner user
      let payload = meta user request_id d.now "stop requested by owner"
      modify_control (atomic_write d stop_flag payload)
      record_action user "aurum.stop" request_id payload
      pure true

-- `ControlState`
pub record ControlState : Type 0 where
  pub paused : Bool
  pub stop_requested : Bool
  pub pause_meta : Option Fields

-- A flag that cannot be parsed is reported as unreadable.
unfoldable pub pause_meta_of : Option Content → Option Fields
pause_meta_of none = none
pause_meta_of (some (whole body)) = some body
pause_meta_of (some torn) = some (field "_unreadable" (bool true) end)

-- `read_control_state`
unfoldable pub read_control_state : Files → ControlState
unfolding pause_meta_of
read_control_state fs = record {
  paused = is_some (read_file pause_flag fs);
  stop_requested = is_some (read_file stop_flag fs);
  pause_meta = pause_meta_of (read_file pause_flag fs);
}
