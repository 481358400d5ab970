-- ===== src/Lib.antt =====
-- The backend of the trading platform, backend/app: passkey logins and refresh sessions, the account
-- routes, the broker accounts with their encrypted credentials and the adapters behind them, the control
-- of the trading process by flag files, its live snapshot, the audit log, and the ingest of its journal
-- into the database.
--
-- How the parts fit: a request opens a session (Session), most routes read the current user from the
-- bearer token (Deps, Security), the handlers of Auth, Me, Brokers and Aurum read and write the tables
-- (Models) and the cache, and each writes to the audit log (Audit). The broker routes work on the
-- credential store, which calls the adapter of the broker and seals what it has found to work (Crypto).
-- An exception ends a handler; what it wrote is committed all the same, and the error handlers turn the
-- exception into the reply (Errors). The ingest (Etl) is a loop of its own on two tables of its own.
--
-- Which file models which part, with paths below backend/app:
-- - Errors: core/errors.py and brokers/exceptions.py. An exception is a value of `Exn`, and
--   `handle_error` is what `install_error_handlers` registers.
-- - Exec: handlers as functions from a state to a result and a state. What was written before a raise
--   stays written.
-- - Models, Models/Tables: db/models.py, and the state `World` that handlers share. A table is the list
--   of its rows, oldest first.
-- - Services: the code outside the repository that the handlers call, as a record of functions: JWT,
--   SHA-256, WebAuthn, base64, UUID texts, Redis. `IsRedis` and `IsJwt` are their documented laws.
-- - Session: `get_session` of db/session.py. `serve` is a request as the client sees it.
-- - Audit: core/audit.py. Security: the tokens of core/security.py. Deps: api/deps.py.
-- - Auth: api/auth.py. Challenge has `_store_challenge` and `_consume_challenge`, whose
--   commands to Redis are data (`Commands`) that Challenge/Race lets two requests interleave; Tokens has
--   `_issue_tokens` and the cookies; Register, Login and Refresh have the handlers. A handler is
--   divided where the code branches: `refresh_found`, `refresh_row` and `refresh_user` are the rest of
--   `refresh` after the row, and then the user, has been read.
-- - Me: api/me.py. Control: aurum/control.py. Snapshot: aurum/snapshot.py.
-- - Aurum, Aurum/Closed: the live and control routes of api/aurum.py, and its pages of closed positions.
--   A route `aurum_stop` reads the current user, and `stop_own` is the rest.
-- - Etl: workers/journal_etl.py, with the lines in Etl/Line. `execute` is one statement, which the
--   database may refuse; `process_file` is a file in one transaction, `run_once` a pass, `sleeps` the
--   waits of `run_loop`.
-- - Crypto: core/crypto.py, over a box and a JSON text that are parameters (`Sealing`).
-- - Brokers: brokers/base.py and brokers/factory.py. `Adapter` is the interface of the adapters, with a
--   `Call` for each method. Brokers/Store is brokers/credential_store.py. Brokers/Schema, Brokers/Meta,
--   Brokers/Routes and Brokers/Routes/Entry are api/broker.py with schemas/broker.py: `test_own` is
--   `broker_test` for the current user, and so on, and `broker_route` puts `get_current_user` before
--   them.
-- - Brokers/Oanda: brokers/oanda_adapter.py, over the answers of the server (`Outside`). Brokers/Mt5:
--   brokers/mt5_adapter.py, over the process of the runner (`Host`). Brokers/Dicts is how both read JSON.
-- - Brokers/Runner: workers/mt5_runner.py as a process that writes objects to its standard output, over
--   the package MetaTrader5 (`Terminal`).
-- - History: sequences of requests, one session after the other.
-- - Tests: runs of the handlers on small states.
-- - Common, Json: tests, lists, texts, and Python values as JSON has them.
--
-- Choices. An identifier, a digest and a byte string are numbers, since they are only compared and
-- handed on. A time is a number of microseconds, or of seconds where the code has seconds, and what the
-- clock and the random generators give while a request is handled is its `Draws`. Floats are texts
-- that are handed on. All functions are by structural recursion, so there is no fuel. A refused
-- statement is an entry of a list that the state of Etl carries, so that a theorem on all states is
-- one on all failures.
--
-- Not modelled: the equity series and the daily report of api/aurum.py, which are SQL aggregates,
-- health routes, rate limits, configuration, middleware, the kinds and lengths of the fields of request
-- bodies, logging, migrations, scripts and the frontend. Each adapter method makes one call to its
-- broker, and what the broker answers is given with the route. Requests that interleave are modelled
-- for the consumption of a challenge only (Auth/Challenge/Race): a history is a sequence. Failures of
-- the file system are not modelled either; a flag write that is cut short is.
pub mod Common
pub mod Json
pub mod Errors
pub mod Exec
pub mod Models
pub mod Services
pub mod Session
pub mod Audit
pub mod Security
pub mod Deps
pub mod Auth
pub mod Me
pub mod Control
pub mod Etl
pub mod Crypto
pub mod Brokers
pub mod Snapshot
pub mod Aurum
pub mod History
pub mod Tests
