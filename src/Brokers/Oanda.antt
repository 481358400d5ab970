-- ===== src/Brokers/Oanda.antt =====
-- brokers/oanda_adapter.py: the adapter for the REST interface of OANDA.
pub mod Sanitize
pub mod Redaction
pub mod Wire
pub mod Connection
pub mod Fetch
pub mod Errors
pub mod Accepted
use aurum_platform.Brokers.{Adapter}
use aurum_platform.Brokers.Oanda.Wire.{Outside, required_fields}
use aurum_platform.Brokers.Oanda.Connection.{test_connection}
use aurum_platform.Brokers.Oanda.Fetch.{get_account_info, get_positions, get_tick}

module _ (out : Outside) where
  -- `OandaAdapter`
  unfoldable pub oanda_adapter : Adapter
  unfolding test_connection get_account_info get_positions get_tick
  oanda_adapter = record {
    required = required_fields;
    test_connection = test_connection out;
    get_account_info = get_account_info out;
    get_positions = get_positions out;
    get_tick = get_tick out;
  }
