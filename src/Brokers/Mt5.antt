-- ===== src/Brokers/Mt5.antt =====
-- brokers/mt5_adapter.py: the adapter for MetaTrader 5.
pub mod Bridge
pub mod Connection
pub mod Fetch
pub mod Wire
use aurum_platform.Brokers.{Adapter}
use aurum_platform.Brokers.Mt5.Bridge.{Host, required_fields}
use aurum_platform.Brokers.Mt5.Connection.{test_connection}
use aurum_platform.Brokers.Mt5.Fetch.{get_account_info, get_positions, get_tick}

module _ (host : Host) where
  -- `MT5Adapter`
  unfoldable pub mt5_adapter : Adapter
  unfolding test_connection get_account_info get_positions get_tick
  mt5_adapter = record {
    required = required_fields;
    test_connection = test_connection host;
    get_account_info = get_account_info host;
    get_positions = get_positions host;
    get_tick = get_tick host;
  }
