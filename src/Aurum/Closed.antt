-- ===== src/Aurum/Closed.antt =====
-- api/aurum.py: the pages of closed positions, over the journal events in the database.
pub mod Pages
use aurum_platform.Common.{
  ℕ, zero, suc, String, Bool, true, false, Option, none, some, List, [], ◌∷◌, ◌<>◌, ◌&&◌, str_eq,
  leb, ltb, length, map, select, if◌then◌else◌,
}
use aurum_platform.Json.{Value, int, Fields, end, field}
use aurum_platform.Exec.{Exec, pure, ◌>>=◌, ◌>>◌}
use aurum_platform.Models.{World, User, Request, Draws, AuditRow}
use aurum_platform.Services.{Services}
use aurum_platform.Audit.{write_audit}
use aurum_platform.Deps.{client_ip, get_current_user}
use aurum_platform.Etl.{PaperEvent}

-- `ClosedPosition`
pub record ClosedPosition : Type 0 where
  pub ts : ℕ
  pub instrument : Option Value
  pub payload : Fields

-- `ClosedPositionsPage`
pub record ClosedPage : Type 0 where
  pub items : List ClosedPosition
  pub next_before : Option ℕ

-- `event_type = 'position_closed'`, with `AND ts < :before` where it is given
unfoldable pub is_closed : Option ℕ → PaperEvent → Bool
is_closed none e = str_eq e.event_type "position_closed"
is_closed (some before) e = str_eq e.event_type "position_closed" && ltb e.ts before

-- `ORDER BY ts DESC`, with one of the orders of events at the same time.
unfoldable pub insert_by_time : PaperEvent → List PaperEvent → List PaperEvent
insert_by_time e [] = e ∷ []
insert_by_time e (x ∷ xs) =
    let rest = insert_by_time e xs in if leb x.ts e.ts then e ∷ x ∷ xs else x ∷ rest

unfoldable pub by_time : List PaperEvent → List PaperEvent
unfolding insert_by_time
by_time [] = []
by_time (e ∷ es) = insert_by_time e (by_time es)

-- `LIMIT n`, and `rows[:n]`
unfoldable pub take {ℓ} : {A : Type ℓ} → ℕ → List A → List A
take zero xs = []
take (suc n) [] = []
take (suc n) (x ∷ xs) = x ∷ take n xs

-- `rows[n]`, where it is there
unfoldable pub nth {ℓ} : {A : Type ℓ} → ℕ → List A → Option A
nth n [] = none
nth zero (x ∷ xs) = some x
nth (suc n) (x ∷ xs) = nth n xs

-- All rows that the query would give without its limit.
unfoldable pub closed_rows : Option ℕ → List PaperEvent → List PaperEvent
unfolding is_closed by_time
closed_rows before events = by_time (select (is_closed before) events)

unfoldable pub closed_position : PaperEvent → ClosedPosition
closed_position e = record { ts = e.ts; instrument = e.instrument; payload = e.payload }

unfoldable pub time_of : Option PaperEvent → Option ℕ
time_of none = none
time_of (some e) = some e.ts

-- The page of `limit` positions, from a query for one more.
unfoldable pub closed_page : ℕ → Option ℕ → List PaperEvent → ClosedPage
unfolding closed_rows take nth closed_position time_of
closed_page limit before events =
    let rows = take (suc limit) (closed_rows before events) in
    record { items = map closed_position (take limit rows); next_before = time_of (nth limit rows) }

module _ {C : Type 0} where
  -- `_audit_read`
  unfoldable pub audit_read : User → Request → String → Fields → Exec (World C) (Unit {0})
  audit_read user r endpoint metadata = write_audit (record {
    action = "aurum.read." <> endpoint;
    status = "success";
    user_id = some user.id;
    resource = none;
    ip_address = client_ip r;
    user_agent = r.user_agent;
    request_id = r.request_id;
    metadata = some metadata;
  })

  unfoldable pub closed_own :
      Request → List PaperEvent → ℕ → Option ℕ → User → Exec (World C) ClosedPage
  unfolding closed_page audit_read ◌>>=◌
  closed_own r events limit before user = do
    let page = closed_page limit before events
    audit_read user r "positions.closed"
        (field "returned" (int (length page.items)) (field "limit" (int limit) end))
    pure page

  -- `aurum_closed_positions`, on the events that are in the database
  unfoldable pub aurum_closed_positions :
      Services C → List PaperEvent → Request → Draws → ℕ → Option ℕ → Exec (World C) ClosedPage
  unfolding ◌>>=◌
  aurum_closed_positions sv events r d limit before = do
    user ← get_current_user sv r d
    closed_own r events limit before user
