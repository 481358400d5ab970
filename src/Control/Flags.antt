-- ===== src/Control/Flags.antt =====
-- What pause, resume and stop of aurum/control.py do: to the flags, and to the two audit trails.
use aurum_platform.Common.{
  ℕ, ◌≡◌, refl, ap, String, Bool, true, false, none, some, [], ◌∷◌, ◌++◌, arith, str_eq, Bool-cases,
  inl, inr, eq_iff, ◌≢◌,
}
use aurum_platform.Json.{Fields}
use aurum_platform.Errors.{app, forbidden}
use aurum_platform.Exec.{err, Exec}
use aurum_platform.Models.{World, User, AuditRow, ControlAction, whole, Draws}
use aurum_platform.Services.{Services}
use aurum_platform.Audit.{write_audit, scrubbed}
use aurum_platform.Control.{
  Files, read_file, atomic_write, pause_flag, stop_flag, is_owner, record_action, meta,
  write_pause_flag, remove_pause_flag, write_stop_flag, ControlState, read_control_state, tmp_name,
}
use aurum_platform.Control.AtomicWrite.{read-remove, atomic_write_is_atomic, atomic_write_frame}
use Prim.Native.Char.{code}

pub data ControlCall : Type 0 where
  pause resume stop : ControlCall

module _ {C : Type 0} (sv : Services C) where
  pub control : ControlCall → Draws → User → ℕ → Exec (World C) Bool
  control pause d user request_id = write_pause_flag sv d user request_id
  control resume d user request_id = remove_pause_flag sv d user request_id
  control stop d user request_id = write_stop_flag sv d user request_id

-- One row in each of the two trails, of one user, action and request.
pub record Recorded {C : Type 0} (user request_id : ℕ) (w w' : World C) : Type 0 where
  pub row : AuditRow
  pub entry : ControlAction
  pub logged : w'.audit_log ≡ w.audit_log ++ row ∷ []
  pub listed : w'.control_actions ≡ w.control_actions ++ entry ∷ []
  pub same_request : (row.request_id ≡ some request_id) × (entry.request_id ≡ request_id)
  pub same_user : (row.user_id ≡ some user) × (entry.user_id ≡ some user)
  pub same_action : row.action ≡ entry.action

module _ {C : Type 0} (sv : Services C) (d : Draws) (user : User) (request_id : ℕ)
    (w : World C) where
  module _ (owns : is_owner user ≡ true) where
    -- Each control call of an owner adds one row to `audit_log` and one to `control_actions`, with
    -- the same user, action and request identifier.
    pub control-Recorded :
        (c : ControlCall) → Recorded user.id request_id w (control sv c d user request_id w).1
    unfolding control write_pause_flag remove_pause_flag write_stop_flag record_action write_audit
        scrubbed
    control-Recorded pause = simp owns (record {
      row = _;
      entry = _;
      logged = refl;
      listed = refl;
      same_request = (refl, refl);
      same_user = (refl, refl);
      same_action = refl;
    })
    control-Recorded resume = simp owns (record {
      row = _;
      entry = _;
      logged = refl;
      listed = refl;
      same_request = (refl, refl);
      same_user = (refl, refl);
      same_action = refl;
    })
    control-Recorded stop = simp owns (record {
      row = _;
      entry = _;
      logged = refl;
      listed = refl;
      same_request = (refl, refl);
      same_user = (refl, refl);
      same_action = refl;
    })

-- The code point at the front of a text that is not empty.
head_code : String → ℕ
head_code String.[] = 0
head_code (String.◌∷◌ c s) = code c

differ_by_head : (s t : String) → head_code s ≢ head_code t → str_eq s t ≡ false
differ_by_head s t h = elim (Bool-cases (str_eq s t)) [
  | inl same ↦ absurd (h (ap head_code ((eq_iff s t).0 same)))
  | inr e ↦ e
]

-- The file of neither flag is touched by a write of the other.
pause_leaves_stop :
    (d : Draws) (body : Fields) (fs : Files)
    → read_file stop_flag (atomic_write d pause_flag body fs) ≡ read_file stop_flag fs
unfolding head_code tmp_name
pause_leaves_stop d body fs =
    atomic_write_frame d pause_flag stop_flag body fs refl
      (differ_by_head (tmp_name d pause_flag) stop_flag (omega arith))

stop_leaves_pause :
    (d : Draws) (body : Fields) (fs : Files)
    → read_file pause_flag (atomic_write d stop_flag body fs) ≡ read_file pause_flag fs
unfolding head_code tmp_name
stop_leaves_pause d body fs =
    atomic_write_frame d stop_flag pause_flag body fs refl
      (differ_by_head (tmp_name d stop_flag) pause_flag (omega arith))

written :
    (d : Draws) (target : String) (body : Fields) (fs : Files)
    → read_file target (atomic_write d target body fs) ≡ some (whole body)
written d target body fs = (atomic_write_is_atomic d target body 0 fs).0

-- The control state after a call of an owner, from the state before it.
pub next_state : ControlCall → Fields → ControlState → ControlState
next_state pause body s = record s { paused = true; pause_meta = some body }
next_state resume body s = record s { paused = false; pause_meta = none }
next_state stop body s = record s { stop_requested = true }

-- The metadata that a call writes to its flag.
pub body_of : {C : Type 0} → Services C → Draws → User → ℕ → ControlCall → Fields
body_of sv d user request_id pause = meta sv user request_id d.now "pause requested by owner"
body_of sv d user request_id resume = meta sv user request_id d.now "resume requested by owner"
body_of sv d user request_id stop = meta sv user request_id d.now "stop requested by owner"

module _ {C : Type 0} (sv : Services C) (d : Draws) (user : User) (request_id : ℕ)
    (w : World C) where
  -- For an owner, a pause sets the pause flag and its metadata, a resume clears them, a stop sets
  -- the stop flag, and each leaves the rest of the control state alone.
  pub control_sets :
      (c : ControlCall)
      → is_owner user ≡ true
      → read_control_state (control sv c d user request_id w).1.control_dir
        ≡ next_state c (body_of sv d user request_id c) (read_control_state w.control_dir)
  unfolding control write_pause_flag remove_pause_flag write_stop_flag record_action write_audit
      read_control_state next_state body_of
  control_sets pause owns = simp owns (simp (written, pause_leaves_stop))
  control_sets resume owns = simp owns (simp read-remove)
  control_sets stop owns = simp owns (simp (written, stop_leaves_pause))

  -- For a user who is no owner, each call is refused with 403, and the database, the cache and the
  -- control directory stay as they are.
  pub control_refused :
      (c : ControlCall)
      → is_owner user ≡ false
      → control sv c d user request_id w ≡ (err (app forbidden "only OWNER may control aurum_2"), w)
  unfolding control write_pause_flag remove_pause_flag write_stop_flag
  control_refused pause other = simp other
  control_refused resume other = simp other
  control_refused stop other = simp other
