-- ===== src/Aurum/Control.antt =====
-- Who may pause, resume and stop the trading process by the routes of api/aurum.py.
use aurum_platform.Common.{◌≡◌, String, true, false, Option}
use aurum_platform.Errors.{app, forbidden, bad_request}
use aurum_platform.Exec.{ok, err}
use aurum_platform.Models.{World, User, Request, Draws}
use aurum_platform.Services.{Services}
use aurum_platform.Deps.{get_current_user}
use aurum_platform.Control.{is_owner}
use aurum_platform.Aurum.{
  aurum_pause, aurum_resume, aurum_stop, pause_own, resume_own, stop_own, confirms,
}

module _ {C : Type 0} (sv : Services C) (r : Request) (d : Draws) (w : World C) (user : User)
    (entered : get_current_user sv r d w ≡ (ok user, w)) where
  -- For a request of a user who is no owner, the three control routes end with 403, whatever the
  -- confirmation header, and the database, the flags and the cache stay as they are.
  pub control_routes_need_owner :
      (header : Option String)
      → is_owner user ≡ false
      → (aurum_pause sv r d w ≡ (err (app forbidden "only OWNER may control aurum_2"), w))
        × (aurum_resume sv r d w ≡ (err (app forbidden "only OWNER may control aurum_2"), w))
        × (aurum_stop sv header r d w ≡ (err (app forbidden "only OWNER may control aurum_2"), w))
  unfolding aurum_pause aurum_resume aurum_stop pause_own resume_own stop_own
  control_routes_need_owner header other =
      (simp (entered, other), simp (entered, other), simp (entered, other))

  -- A stop by an owner without the header `X-Confirm-Stop: yes` ends with 400 and changes nothing.
  pub stop_needs_confirmation :
      (header : Option String)
      → is_owner user ≡ true
      → confirms header ≡ false
      → aurum_stop sv header r d w
        ≡ (err (app bad_request "X-Confirm-Stop: yes header required for /aurum/stop"), w)
  unfolding aurum_stop stop_own
  stop_needs_confirmation header owns silent = simp (entered, owns, silent)
