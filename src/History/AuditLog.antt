-- ===== src/History/AuditLog.antt =====
-- The audit log over histories of requests.
use aurum_platform.Common.{◌≡◌, sym, ap, ◌∙◌, List, [], ◌∷◌, ◌++◌, append_assoc, append-nil}
use aurum_platform.Exec.{Exec}
use aurum_platform.Exec.Respects.{Respects}
use aurum_platform.Models.{World, Request, Draws, AuditRow}
use aurum_platform.Services.{Services}
use aurum_platform.Audit.AppendOnly.{Appends, serve-Appends}
use aurum_platform.Auth.Appends.{
  register_begin-Appends, register_finish-Appends, login_begin-Appends, login_finish-Appends,
}
use aurum_platform.Auth.Refresh.Appends.{refresh-Appends, logout-Appends, logout_all-Appends}
use aurum_platform.Me.Appends.{
  get_me-Appends, list_passkeys-Appends, rename_passkey-Appends, remove_passkey-Appends,
}
use aurum_platform.Brokers.Appends.{broker_route-Appends}
use aurum_platform.Aurum.Appends.{
  aurum_pause-Appends, aurum_resume-Appends, aurum_stop-Appends, aurum_status-Appends,
  aurum_open_positions-Appends, aurum_regime-Appends, aurum_control_state-Appends,
  aurum_closed_positions-Appends,
}
use aurum_platform.History.{
  Route, to_register_begin, to_register_finish, to_login_begin, to_login_finish, to_refresh,
  to_logout, to_logout_all, to_me, to_passkeys, to_rename, to_remove, to_pause, to_resume, to_stop,
  to_status, to_open_positions, to_regime, to_control_state, to_closed, to_broker, after_request,
  dispatch, run,
}

-- The log grew at its end.
Grown : List AuditRow → List AuditRow → Type 0
Grown before after = (rows : List AuditRow) × (after ≡ before ++ rows)

module _ {C : Type 0} (sv : Services C) where
  request-Grown :
      {A : Type 0} (r : Request) (m : Exec (World C) A) (w : World C)
      → Respects Appends m
      → Grown w.committed.audit_log (after_request sv r m w).committed.audit_log
  unfolding after_request Grown
  request-Grown r m w h = serve-Appends r.request_id m w h

  dispatch-Grown :
      (route : Route) (r : Request) (d : Draws) (w : World C)
      → Grown w.committed.audit_log (dispatch sv route r d w).committed.audit_log
  unfolding dispatch
  dispatch-Grown (to_register_begin email nickname) r d w =
      request-Grown r _ w (register_begin-Appends sv r d email nickname)
  dispatch-Grown (to_register_finish id credential nickname) r d w =
      request-Grown r _ w (register_finish-Appends sv r d id credential nickname)
  dispatch-Grown (to_login_begin email) r d w =
      request-Grown r _ w (login_begin-Appends sv r d email)
  dispatch-Grown (to_login_finish id credential) r d w =
      request-Grown r _ w (login_finish-Appends sv r d id credential)
  dispatch-Grown to_refresh r d w = request-Grown r _ w (refresh-Appends sv r d)
  dispatch-Grown to_logout r d w = request-Grown r _ w (logout-Appends sv r d)
  dispatch-Grown to_logout_all r d w = request-Grown r _ w (logout_all-Appends sv r d)
  dispatch-Grown to_me r d w = request-Grown r _ w (get_me-Appends sv r d)
  dispatch-Grown to_passkeys r d w = request-Grown r _ w (list_passkeys-Appends sv r d)
  dispatch-Grown (to_rename passkey_id nickname) r d w =
      request-Grown r _ w (rename_passkey-Appends sv r d passkey_id nickname)
  dispatch-Grown (to_remove passkey_id) r d w =
      request-Grown r _ w (remove_passkey-Appends sv r d passkey_id)
  dispatch-Grown to_pause r d w = request-Grown r _ w (aurum_pause-Appends sv r d)
  dispatch-Grown to_resume r d w = request-Grown r _ w (aurum_resume-Appends sv r d)
  dispatch-Grown (to_stop header) r d w = request-Grown r _ w (aurum_stop-Appends sv header r d)
  dispatch-Grown (to_status snap) r d w = request-Grown r _ w (aurum_status-Appends sv snap r d)
  dispatch-Grown (to_open_positions snap) r d w =
      request-Grown r _ w (aurum_open_positions-Appends sv snap r d)
  dispatch-Grown (to_regime snap) r d w = request-Grown r _ w (aurum_regime-Appends sv snap r d)
  dispatch-Grown to_control_state r d w = request-Grown r _ w (aurum_control_state-Appends sv r d)
  dispatch-Grown (to_closed events limit before) r d w =
      request-Grown r _ w (aurum_closed_positions-Appends sv events r d limit before)
  dispatch-Grown (to_broker registry sl route) r d w =
      request-Grown r _ w (broker_route-Appends sv registry sl r d route)

  -- Over any sequence of requests to the routes of `Route`, whatever each returns or raises, the
  -- committed audit log keeps all its rows in order, and new rows come at its end.
  pub audit_log_append_only :
      (history : List (Route × Request × Draws)) (w : World C)
      → (rows : List AuditRow) × ((run sv history w).committed.audit_log
          ≡ w.committed.audit_log ++ rows)
  unfolding run Grown
  audit_log_append_only [] w = ([], sym (append-nil w.committed.audit_log))
  audit_log_append_only ((route, r, d) ∷ rest) w =
      let (first, e) = dispatch-Grown route r d w in
      let (more, f) = audit_log_append_only rest (dispatch sv route r d w) in
      (first ++ more, f ∙ ap (λ x. x ++ more) e ∙ append_assoc w.committed.audit_log first more)
