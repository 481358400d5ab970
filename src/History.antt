-- ===== src/History.antt =====
-- Histories of the application: requests that come one after the other, each in a session of its
-- own, as main.py routes them to the handlers.
pub mod AuditLog
use aurum_platform.Common.{ℕ, String, Option, List, [], ◌∷◌}
use aurum_platform.Json.{Fields}
use aurum_platform.Exec.{Result, Exec}
use aurum_platform.Models.{World, Request, Draws}
use aurum_platform.Services.{Services}
use aurum_platform.Session.{serve}
use aurum_platform.Auth.Register.{register_begin, register_finish}
use aurum_platform.Auth.Login.{login_begin, login_finish}
use aurum_platform.Auth.Refresh.{refresh, logout, logout_all}
use aurum_platform.Me.{get_me, list_passkeys, rename_passkey, remove_passkey}
use aurum_platform.Etl.{PaperEvent}
use aurum_platform.Aurum.Closed.{aurum_closed_positions}
use aurum_platform.Crypto.{Sealing}
use aurum_platform.Brokers.{Registry}
use aurum_platform.Brokers.Routes.Entry.{BrokerRoute, broker_route}
use aurum_platform.Aurum.{
  aurum_pause, aurum_resume, aurum_stop, aurum_status, aurum_open_positions, aurum_regime,
  aurum_control_state,
}

-- A route with the parameters that FastAPI takes from the path, the query, the headers and the body,
-- and with what it finds outside: the snapshot file, the journal events, the
-- brokers and the box of the master key.
pub data Route : Type 0 where
  to_register_begin : String → Option String → Route
  to_register_finish : String → Fields → Option String → Route
  to_login_begin : Option String → Route
  to_login_finish : String → Fields → Route
  to_refresh to_logout to_logout_all to_me to_passkeys : Route
  to_rename : ℕ → String → Route
  to_remove : ℕ → Route
  to_pause to_resume : Route
  to_stop : Option String → Route
  to_status to_open_positions to_regime : Result (Option Fields) → Route
  to_control_state : Route
  to_closed : List PaperEvent → ℕ → Option ℕ → Route
  to_broker : Registry → Sealing → BrokerRoute → Route

module _ {C : Type 0} (sv : Services C) where
  -- The state after a handler in its session, without what it returns.
  unfoldable pub after_request : {A : Type 0} → Request → Exec (World C) A → World C → World C
  unfolding serve
  after_request r m w = (serve r.request_id m w).1

  unfoldable pub dispatch : Route → Request → Draws → World C → World C
  unfolding after_request
  dispatch (to_register_begin email nickname) r d =
      after_request r (register_begin sv r d email nickname)
  dispatch (to_register_finish id credential nickname) r d =
      after_request r (register_finish sv r d id credential nickname)
  dispatch (to_login_begin email) r d = after_request r (login_begin sv r d email)
  dispatch (to_login_finish id credential) r d = after_request r (login_finish sv r d id credential)
  dispatch to_refresh r d = after_request r (refresh sv r d)
  dispatch to_logout r d = after_request r (logout sv r d)
  dispatch to_logout_all r d = after_request r (logout_all sv r d)
  dispatch to_me r d = after_request r (get_me sv r d)
  dispatch to_passkeys r d = after_request r (list_passkeys sv r d)
  dispatch (to_rename passkey_id nickname) r d =
      after_request r (rename_passkey sv r d passkey_id nickname)
  dispatch (to_remove passkey_id) r d = after_request r (remove_passkey sv r d passkey_id)
  dispatch to_pause r d = after_request r (aurum_pause sv r d)
  dispatch to_resume r d = after_request r (aurum_resume sv r d)
  dispatch (to_stop header) r d = after_request r (aurum_stop sv header r d)
  dispatch (to_status snap) r d = after_request r (aurum_status sv snap r d)
  dispatch (to_open_positions snap) r d = after_request r (aurum_open_positions sv snap r d)
  dispatch (to_regime snap) r d = after_request r (aurum_regime sv snap r d)
  dispatch to_control_state r d = after_request r (aurum_control_state sv r d)
  dispatch (to_closed events limit before) r d =
      after_request r (aurum_closed_positions sv events r d limit before)
  dispatch (to_broker registry sl route) r d =
      after_request r (broker_route sv registry sl r d route)

  -- Requests in the order in which they are handled.
  unfoldable pub run : List (Route × Request × Draws) → World C → World C
  unfolding dispatch
  run [] w = w
  run ((route, r, d) ∷ rest) w = run rest (dispatch route r d w)
