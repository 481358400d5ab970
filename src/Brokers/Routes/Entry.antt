-- ===== src/Brokers/Routes/Entry.antt =====
-- api/broker.py: the routes of the router, with the current user and the check of the body that come
-- before the handlers. FastAPI finds the current user before it reads the body.
use aurum_platform.Common.{ℕ, String, List}
use aurum_platform.Errors.{request_validation}
use aurum_platform.Exec.{Exec, pure, require, ◌>>=◌, ◌>>◌}
use aurum_platform.Models.{World, User, Request, Draws}
use aurum_platform.Services.{Services}
use aurum_platform.Deps.{get_current_user}
use aurum_platform.Crypto.{Sealing}
use aurum_platform.Brokers.{TestResult, Registry}
use aurum_platform.Brokers.Schema.{Credentials, types_match, AccountResponse, AccountDetail}
use aurum_platform.Brokers.Routes.{
  list_own, deactivate_own, reactivate_own, delete_own, test_own, connect_own, read_own,
  test_stored_own,
}

-- A route with its path and its body.
pub data BrokerRoute : Type 0 where
  to_test : String → Credentials → BrokerRoute
  to_connect : String → String → Credentials → BrokerRoute
  to_list : BrokerRoute
  to_read to_test_stored to_deactivate to_reactivate to_delete : ℕ → BrokerRoute

-- The body of an answer; a deletion answers without one.
pub data BrokerReply : Type 0 where
  tested : TestResult → BrokerReply
  account : AccountResponse → BrokerReply
  accounts : List AccountResponse → BrokerReply
  detail : AccountDetail → BrokerReply
  no_content : BrokerReply

module _ {C : Type 0} (sv : Services C) (registry : Registry) (sl : Sealing) (r : Request)
    (d : Draws) where
  -- A route, for the current user.
  unfoldable pub serve_user : BrokerRoute → User → Exec (World C) BrokerReply
  unfolding types_match ◌>>=◌
  serve_user (to_test broker_type credentials) user = do
    require (types_match broker_type credentials) request_validation
    result ← test_own sv registry r broker_type credentials user
    pure (tested result)
  serve_user (to_connect broker_type account_label credentials) user = do
    require (types_match broker_type credentials) request_validation
    row ← connect_own sv registry sl r d broker_type account_label credentials user
    pure (account row)
  serve_user to_list user = do rows ← list_own r user; pure (accounts rows)
  serve_user (to_read i) user = do row ← read_own sv registry sl r i user; pure (detail row)
  serve_user (to_test_stored i) user = do
    result ← test_stored_own sv registry sl r d i user
    pure (tested result)
  serve_user (to_deactivate i) user = do row ← deactivate_own sv r d i user; pure (account row)
  serve_user (to_reactivate i) user = do row ← reactivate_own sv r i user; pure (account row)
  serve_user (to_delete i) user = do delete_own sv r i user; pure no_content

  unfoldable pub broker_route : BrokerRoute → Exec (World C) BrokerReply
  unfolding ◌>>=◌
  broker_route route = do user ← get_current_user sv r d; serve_user route user
