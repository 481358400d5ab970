-- ===== src/Aurum/Appends.antt =====
-- The routes of api/aurum.py that are modelled only add to the audit log.
use aurum_platform.Common.{List, ℕ, String, Option, none, some, refl, ◌∷◌}
use aurum_platform.Json.{Fields}
use aurum_platform.Exec.{Result}
use aurum_platform.Exec.Respects.{Respects}
use aurum_platform.Models.{User, Request, Draws, ControlAction}
use aurum_platform.Services.{Services}
use aurum_platform.Audit.AppendOnly.{Appends, Appends-none, modify-Appends, modify_db-Appends}
use aurum_platform.Auth.Appends.{basic_rules}
use aurum_platform.Control.{
  Files, require_owner, modify_control, add_control_action, record_action, write_pause_flag,
  remove_pause_flag, write_stop_flag,
}
use aurum_platform.Etl.{PaperEvent}
use aurum_platform.Audit.AppendOnly.{write_audit-Appends}
use aurum_platform.Aurum.Closed.{audit_read, closed_own, aurum_closed_positions}
use aurum_platform.Aurum.{
  first_read, audit_polled_read, snapshot_of, found_or_404, status_own, pause_own, resume_own,
  stop_own, open_positions_own, regime_own, control_state_own, aurum_pause, aurum_resume,
  aurum_stop, aurum_status, aurum_open_positions, aurum_regime, aurum_control_state,
}

module _ {C : Type 0} where
  require_owner-Appends : (user : User) → Respects Appends (require_owner {C = C} user)
  unfolding require_owner
  require_owner-Appends user = search basic_rules

  modify_control-Appends : (f : Files → Files) → Respects Appends (modify_control {C = C} f)
  unfolding modify_control
  modify_control-Appends f = modify-Appends _ (λ s. refl)

  add_control_action-Appends : (a : ControlAction) → Respects Appends (add_control_action {C = C} a)
  unfolding add_control_action
  add_control_action-Appends a = modify_db-Appends _ (λ d. refl)

  record_action-Appends :
      (user : User) (action : String) (request_id : ℕ) (metadata : Fields)
      → Respects Appends (record_action {C = C} user action request_id metadata)
  unfolding record_action
  record_action-Appends user action request_id metadata =
      search (basic_rules, add_control_action-Appends)

  first_read-Appends :
      (r : Request) (user : User) (endpoint : String)
      → Respects Appends (first_read {C = C} r user endpoint)
  unfolding first_read
  first_read-Appends r user endpoint = search (
    basic_rules,
    modify-Appends (λ w. record w { audit_seen = (user.id, endpoint) ∷ w.audit_seen }) (λ s. refl),
  )

  audit_polled_read-Appends :
      (r : Request) (user : User) (endpoint : String)
      → Respects Appends (audit_polled_read {C = C} r user endpoint)
  unfolding audit_polled_read
  audit_polled_read-Appends r user endpoint = search (basic_rules, first_read-Appends)

  snapshot_of-Appends :
      (snap : Result (Option Fields)) → Respects Appends (snapshot_of {C = C} snap)
  unfolding snapshot_of
  snapshot_of-Appends snap = record { at = λ s. Appends-none s s refl }

  found_or_404-Appends : (x : Option Fields) → Respects Appends (found_or_404 {C = C} x)
  unfolding found_or_404
  found_or_404-Appends none = search basic_rules
  found_or_404-Appends (some o) = search basic_rules

  status_own-Appends :
      (snap : Result (Option Fields)) (r : Request) (user : User)
      → Respects Appends (status_own {C = C} snap r user)
  unfolding status_own
  status_own-Appends snap r user =
      search (basic_rules, snapshot_of-Appends, found_or_404-Appends, audit_polled_read-Appends)

  open_positions_own-Appends :
      (snap : Result (Option Fields)) (r : Request) (user : User)
      → Respects Appends (open_positions_own {C = C} snap r user)
  unfolding open_positions_own
  open_positions_own-Appends snap r user =
      search (basic_rules, snapshot_of-Appends, audit_polled_read-Appends)

  regime_own-Appends :
      (snap : Result (Option Fields)) (r : Request) (user : User)
      → Respects Appends (regime_own {C = C} snap r user)
  unfolding regime_own
  regime_own-Appends snap r user =
      search (basic_rules, snapshot_of-Appends, audit_polled_read-Appends)

  control_state_own-Appends :
      (r : Request) (user : User) → Respects Appends (control_state_own {C = C} r user)
  unfolding control_state_own
  control_state_own-Appends r user = search (basic_rules, audit_polled_read-Appends)

ruleset control_rules =
    (basic_rules, require_owner-Appends, modify_control-Appends, record_action-Appends)

module _ {C : Type 0} (sv : Services C) where
  write_pause_flag-Appends :
      (d : Draws) (user : User) (request_id : ℕ)
      → Respects Appends (write_pause_flag sv d user request_id)
  unfolding write_pause_flag
  write_pause_flag-Appends d user request_id = search control_rules depth 8

  remove_pause_flag-Appends :
      (d : Draws) (user : User) (request_id : ℕ)
      → Respects Appends (remove_pause_flag sv d user request_id)
  unfolding remove_pause_flag
  remove_pause_flag-Appends d user request_id = search control_rules depth 8

  write_stop_flag-Appends :
      (d : Draws) (user : User) (request_id : ℕ)
      → Respects Appends (write_stop_flag sv d user request_id)
  unfolding write_stop_flag
  write_stop_flag-Appends d user request_id = search control_rules depth 8

  pause_own-Appends :
      (r : Request) (d : Draws) (user : User) → Respects Appends (pause_own sv r d user)
  unfolding pause_own
  pause_own-Appends r d user = search (control_rules, write_pause_flag-Appends)

  resume_own-Appends :
      (r : Request) (d : Draws) (user : User) → Respects Appends (resume_own sv r d user)
  unfolding resume_own
  resume_own-Appends r d user = search (control_rules, remove_pause_flag-Appends)

  stop_own-Appends :
      (header : Option String) (r : Request) (d : Draws) (user : User)
      → Respects Appends (stop_own sv header r d user)
  unfolding stop_own
  stop_own-Appends header r d user = search (control_rules, write_stop_flag-Appends) depth 8

  pub aurum_pause-Appends : (r : Request) (d : Draws) → Respects Appends (aurum_pause sv r d)
  unfolding aurum_pause
  aurum_pause-Appends r d = search (basic_rules, pause_own-Appends)

  pub aurum_resume-Appends : (r : Request) (d : Draws) → Respects Appends (aurum_resume sv r d)
  unfolding aurum_resume
  aurum_resume-Appends r d = search (basic_rules, resume_own-Appends)

  pub aurum_stop-Appends :
      (header : Option String) (r : Request) (d : Draws)
      → Respects Appends (aurum_stop sv header r d)
  unfolding aurum_stop
  aurum_stop-Appends header r d = search (basic_rules, stop_own-Appends)

  pub aurum_status-Appends :
      (snap : Result (Option Fields)) (r : Request) (d : Draws)
      → Respects Appends (aurum_status sv snap r d)
  unfolding aurum_status
  aurum_status-Appends snap r d = search (basic_rules, status_own-Appends)

  pub aurum_open_positions-Appends :
      (snap : Result (Option Fields)) (r : Request) (d : Draws)
      → Respects Appends (aurum_open_positions sv snap r d)
  unfolding aurum_open_positions
  aurum_open_positions-Appends snap r d = search (basic_rules, open_positions_own-Appends)

  pub aurum_regime-Appends :
      (snap : Result (Option Fields)) (r : Request) (d : Draws)
      → Respects Appends (aurum_regime sv snap r d)
  unfolding aurum_regime
  aurum_regime-Appends snap r d = search (basic_rules, regime_own-Appends)

  pub aurum_control_state-Appends :
      (r : Request) (d : Draws) → Respects Appends (aurum_control_state sv r d)
  unfolding aurum_control_state
  aurum_control_state-Appends r d = search (basic_rules, control_state_own-Appends)

  audit_read-Appends :
      (user : User) (r : Request) (endpoint : String) (metadata : Fields)
      → Respects Appends (audit_read {C = C} user r endpoint metadata)
  unfolding audit_read
  audit_read-Appends user r endpoint metadata = write_audit-Appends _

  pub aurum_closed_positions-Appends :
      (events : List PaperEvent) (r : Request) (d : Draws) (limit : ℕ) (before : Option ℕ)
      → Respects Appends (aurum_closed_positions sv events r d limit before)
  unfolding aurum_closed_positions closed_own
  aurum_closed_positions-Appends events r d limit before = search basic_rules
