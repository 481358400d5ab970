-- ===== src/Brokers/Mt5/Fetch.antt =====
-- brokers/mt5_adapter.py: the account, its positions and the prices.
use aurum_platform.Common.{String, List, [], ◌∷◌, if◌then◌else◌}
use aurum_platform.Json.{Value, null, str, arr, Fields, end, field, Items, nil, cons}
use aurum_platform.Exec.{pure, ◌>>=◌, ◌>>◌}
use aurum_platform.Brokers.{AccountInfo, Position, Tick, Call}
use aurum_platform.Brokers.Dicts.{lift, as_dict, item, items_of, get_or}
use aurum_platform.Brokers.Mt5.Bridge.{
  Host, validate, run_subprocess, canned_account_info, canned_tick,
}

module _ (host : Host) where
  -- `float(d[k])`
  unfoldable pub float_at : String → Value → Call Value
  unfolding item lift ◌>>=◌
  float_at k d = do v ← item k d; lift (host.to_float v)

  -- `float(v) if v is not None else None`
  unfoldable pub float_or_none : Value → Call Value
  unfolding lift pure
  float_or_none null = pure null
  float_or_none v = lift (host.to_float v)

  unfoldable pub fetch_account : Fields → Call AccountInfo
  unfolding run_subprocess item as_dict get_or float_at float_or_none ◌>>=◌
  fetch_account credentials = do
    answer ← run_subprocess host "get_account_info" credentials end "10.0"
    account_number ← item "account_number" answer
    currency ← item "currency" answer
    balance ← float_at "balance" answer
    equity ← float_at "equity" answer
    margin ← float_at "margin" answer
    free_margin ← float_at "free_margin" answer
    found ← as_dict answer
    margin_level ← float_or_none (get_or "margin_level" null found)
    server ← item "server" answer
    pure (record {
      account_number = account_number;
      currency = currency;
      balance = balance;
      equity = equity;
      margin = margin;
      free_margin = free_margin;
      margin_level = margin_level;
      server = server;
    })

  unfoldable pub get_account_info : Fields → Call AccountInfo
  unfolding validate canned_account_info fetch_account pure ◌>>=◌
  get_account_info credentials = do
    validate host credentials
    if host.test_mode
        then pure (canned_account_info host credentials)
        else fetch_account credentials

  -- One turn of the loop of `get_positions`.
  unfoldable pub position_of : Value → Call Position
  unfolding item as_dict get_or lift float_at ◌>>=◌
  position_of p = do
    position_id ← item "position_id" p
    symbol ← item "symbol" p
    side ← item "side" p
    volume ← float_at "volume" p
    open_price ← float_at "open_price" p
    current_price ← float_at "current_price" p
    unrealized_pnl ← float_at "unrealized_pnl" p
    seconds ← float_at "open_time" p
    open_time ← lift (host.from_timestamp seconds)
    fields ← as_dict p
    pure (record {
      position_id = str (host.text_of position_id);
      symbol = symbol;
      side = side;
      volume = volume;
      open_price = open_price;
      current_price = current_price;
      unrealized_pnl = unrealized_pnl;
      open_time = open_time;
      sl = get_or "sl" null fields;
      tp = get_or "tp" null fields;
    })

  unfoldable pub positions_of : Items → Call (List Position)
  unfolding position_of pure ◌>>=◌
  positions_of nil = pure []
  positions_of (cons p rest) = do
    position ← position_of p
    positions ← positions_of rest
    pure (position ∷ positions)

  unfoldable pub fetch_positions : Fields → Call (List Position)
  unfolding run_subprocess as_dict items_of get_or positions_of ◌>>=◌
  fetch_positions credentials = do
    answer ← run_subprocess host "get_positions" credentials end "10.0"
    found ← as_dict answer
    items ← items_of (get_or "positions" (arr nil) found)
    positions_of items

  -- `get_positions`, which has none in the test mode
  unfoldable pub get_positions : Fields → Call (List Position)
  unfolding validate fetch_positions pure ◌>>=◌
  get_positions credentials = do
    validate host credentials
    if host.test_mode then pure [] else fetch_positions credentials

  unfoldable pub fetch_tick : Fields → String → Call Tick
  unfolding run_subprocess item lift float_at ◌>>=◌
  fetch_tick credentials symbol = do
    answer ← run_subprocess host "get_tick" credentials (field "symbol" (str symbol) end) "10.0"
    found ← item "symbol" answer
    bid ← float_at "bid" answer
    ask ← float_at "ask" answer
    ms ← item "timestamp_ms" answer
    timestamp_ms ← lift (host.to_int ms)
    pure (record { symbol = found; bid = bid; ask = ask; timestamp_ms = timestamp_ms })

  unfoldable pub get_tick : Fields → String → Call Tick
  unfolding validate canned_tick fetch_tick pure ◌>>=◌
  get_tick credentials symbol = do
    validate host credentials
    if host.test_mode then pure (canned_tick host symbol) else fetch_tick credentials symbol
