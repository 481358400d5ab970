-- ===== src/Tests/Trading.antt =====
-- The controls of the trading process, its snapshot, and the audit metadata.
use aurum_platform.Common.{
  is_empty, find, ◌*◌, ◌-◌, ◌≡◌, refl, Bool, true, some, List, [], ◌∷◌, ◌++◌, ◌⊎◌, ltb,
  if◌then◌else◌, ℕ, inl, any, same_codes, lower, none,
}
use aurum_platform.Json.{Fields, str, int, bool, float, obj, end, field, get}
use aurum_platform.Errors.{app, forbidden}
use aurum_platform.Exec.{ok, err}
use aurum_platform.Models.{World, User, owner, whole, AuditRow}
use aurum_platform.Audit.{is_forbidden, scrub}
use aurum_platform.Audit.Scrub.{follow, follow-scrub}
use aurum_platform.Deps.{get_current_user}
use aurum_platform.Control.{is_owner, read_control_state, read_file, tmp_name, atomic_write}
use aurum_platform.Control.AtomicWrite.{after_steps, atomic_write_is_atomic}
use aurum_platform.Control.Flags.{stop, control, next_state, body_of, control_sets}
use aurum_platform.Snapshot.{Formats, contents, aware, naive, read_current_state}
use aurum_platform.Snapshot.Age.{aware_snapshot}
use aurum_platform.Aurum.{aurum_pause, aurum_resume, aurum_stop}
use aurum_platform.Aurum.Control.{control_routes_need_owner}
use aurum_platform.Tests.Cache.{Cache, services, user_one, world_with, request, draws}
use aurum_platform.Etl.{PaperEvent}
use aurum_platform.History.{run, to_pause, to_control_state}
use aurum_platform.History.AuditLog.{audit_log_append_only}

abbrev quiet : World Cache
quiet = world_with [] []

abbrev boss : User
boss = record user_one { role = owner }

-- The same with the owner as the user.
abbrev quiet_owner : World Cache
quiet_owner = record quiet { db = record quiet.db { users = boss ∷ [] } }

control_sets_example :
    read_control_state (control services stop draws boss 77 quiet).1.control_dir
    ≡ next_state stop (body_of services draws boss 77 stop) (read_control_state [])
unfolding is_owner
control_sets_example = control_sets services draws boss 77 quiet stop refl

atomic_write_is_atomic_example :
    (read_file "stop.flag" (atomic_write draws "stop.flag" end []) ≡ some (whole end))
    × ((read_file "stop.flag" (after_steps 2 (tmp_name draws "stop.flag") "stop.flag" end [])
          ≡ read_file "stop.flag" [])
        ⊎ (read_file "stop.flag" (after_steps 2 (tmp_name draws "stop.flag") "stop.flag" end [])
            ≡ some (whole end)))
atomic_write_is_atomic_example = atomic_write_is_atomic draws "stop.flag" end 2 []

control_routes_need_owner_example :
    (aurum_pause services (request "") draws quiet
      ≡ (err (app forbidden "only OWNER may control aurum_2"), quiet))
    × (aurum_resume services (request "") draws quiet
        ≡ (err (app forbidden "only OWNER may control aurum_2"), quiet))
    × (aurum_stop services (some "yes") (request "") draws quiet
        ≡ (err (app forbidden "only OWNER may control aurum_2"), quiet))
unfolding is_owner get_current_user find
control_routes_need_owner_example =
    control_routes_need_owner services (request "") draws quiet user_one refl (some "yes") refl

abbrev state : Fields
state = field "snapshot_ts" (str "2026-05-02 02:07:12") end

-- The one file is "state", and its time has a zone if `zone` is true.
abbrev formats : Bool → Formats
formats zone = record {
  json_loads = λ raw. some (obj state);
  from_iso = λ text. if zone then some (aware 40) else some (naive 40);
  utc_iso = λ t. "2026-05-02T02:07:12+00:00";
  seconds = λ n. "0.00001";
}

aware_snapshot_example :
    (out : Fields) × (read_current_state (formats true) 50 30 (contents "state") ≡ ok (some out))
    × (get "is_runner_responsive" out ≡ some (bool (ltb (50 - 40) (30 * 1000000))))
    × (get "tick_age_seconds" out ≡ some (float "0.00001"))
    × (get "snapshot_ts" out ≡ some (str "2026-05-02T02:07:12+00:00"))
    × (get "open_positions" out ≡ get "open_positions" state)
unfolding get is_empty
aware_snapshot_example =
    aware_snapshot (formats true) 50 30 "state" state "2026-05-02 02:07:12" 40 refl refl refl refl

abbrev metadata : Fields
metadata =
    field "broker" (obj (field "Password" (str "x") (field "label" (str "main") end)))
      (field "count" (int 2) end)

follow-scrub_example :
    (after : Fields) × (scrub (some metadata) ≡ some after)
    × (follow ("broker" ∷ []) "Password" after ≡ some (str "[REDACTED]"))
unfolding is_forbidden any same_codes lower follow get
follow-scrub_example = follow-scrub ("broker" ∷ []) "Password" metadata (inl refl)

audit_log_append_only_example :
    (rows : List AuditRow) × ((run services
        ((to_pause, request "", draws) ∷ (to_control_state, request "", draws) ∷ [])
        quiet_owner).committed.audit_log
      ≡ quiet_owner.committed.audit_log ++ rows)
audit_log_append_only_example =
    audit_log_append_only services
      ((to_pause, request "", draws) ∷ (to_control_state, request "", draws) ∷ []) quiet_owner

-- A closed position at a time.
abbrev closed_at : ℕ → PaperEvent
closed_at t = record {
  event_id = t;
  ts = t;
  instrument = none;
  event_type = "position_closed";
  payload = end;
  source_file = "j";
  source_line = t;
  event_id_synthetic = true;
}

abbrev closed : List PaperEvent
closed = closed_at 1 ∷ closed_at 2 ∷ closed_at 3 ∷ []
