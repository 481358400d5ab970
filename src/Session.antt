-- ===== src/Session.antt =====
-- The life of a request: `get_session` of db/session.py, with the error handlers of core/errors.py.
-- A session works on its own view of the database. `get_session` commits it when the handler
-- returns and when it raises. No query of a handler runs between a change to a row and the flush
-- that sends it, so a change shows in the view at once.
use aurum_platform.Common.{ℕ, Option}
use aurum_platform.Errors.{Problem, handle_error}
use aurum_platform.Exec.{Result, ok, err, Exec, modify}
use aurum_platform.Models.{World, Db, Cookie, untouched}

-- What the client gets. The response that an error handler builds is a new one, without the
-- headers that the route has set on its own response.
pub data Reply (A : Type 0) : Type 0 where
  success : A → Cookie → Reply A
  failure : Problem → Reply A

unfoldable pub respond : {A : Type 0} → Option ℕ → Result A → Cookie → Reply A
respond rid (ok a) cookie = success a cookie
respond rid (err e) cookie = failure (handle_error rid e)

module _ {C : Type 0} where
  -- A session starts from what is committed, and a response without cookies.
  unfoldable pub begin : World C → World C
  begin w = record w { db = w.committed; cookie = untouched }

  -- `session.commit()`
  unfoldable pub commit : World C → World C
  commit w = record w { committed = w.db }

  -- `session.rollback()`
  unfoldable pub rollback : World C → World C
  rollback w = record w { db = w.committed }

  unfoldable pub modify_db : (Db → Db) → Exec (World C) (Unit {0})
  unfolding modify
  modify_db f = modify (λ w. record w { db = f w.db })

  -- `get_session` around a handler: both branches commit, and the second raises again.
  unfoldable pub with_session : {A : Type 0} → Exec (World C) A → Exec (World C) A
  unfolding begin commit
  with_session m w = let (r, w') = m (begin w) in (r, commit w')

  -- A route as the client sees it.
  unfoldable pub serve : {A : Type 0} → Option ℕ → Exec (World C) A → World C → Reply A × World C
  unfolding with_session respond
  serve rid m w = let (r, w') = with_session m w in (respond rid r w'.cookie, w')
