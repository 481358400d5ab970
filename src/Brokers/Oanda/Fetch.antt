-- ===== src/Brokers/Oanda/Fetch.antt =====
-- brokers/oanda_adapter.py: the account, its positions and the prices.
use aurum_platform.Common.{String, Option, none, some, List, [], ◌∷◌, ◌<>◌, str_eq, if◌then◌else◌}
use aurum_platform.Json.{Value, null, int, str, arr, obj, Fields, end, Items, nil, cons, truthy}
use aurum_platform.Errors.{Exn, broker, unknown_account, connection, network, other}
use aurum_platform.Exec.{pure, raise, require, handle, ◌>>=◌, ◌>>◌}
use aurum_platform.Services.{Attempt, returned, raised}
use aurum_platform.Brokers.{AccountInfo, Position, Tick, Call}
use aurum_platform.Brokers.Oanda.Sanitize.{replace_all}
use aurum_platform.Brokers.Dicts.{lift, as_dict, item, items_of, first, get_or, or_value}
use aurum_platform.Brokers.Oanda.Wire.{Outside, validate, json_of, float_or_zero, server_of}

module _ (out : Outside) where
  -- The last `except` clause of the other methods.
  unfoldable pub fetch_failed : {A : Type 0} → Exn → Call A
  unfolding raise
  fetch_failed (network class) = raise (broker connection ("network error: " <> class) none)
  fetch_failed e = raise e

  -- The body of the `try` of `get_account_info`.
  unfoldable pub fetch_account : String × String × String → Call AccountInfo
  unfolding json_of item as_dict float_or_zero lift get_or replace_all ◌>>=◌
  fetch_account (account_id, token, url) = do
    body ←
        json_of out (out.request url token ("/v3/accounts/" <> account_id <> "/summary") none) token
    found ← item "account" body
    account ← as_dict found
    margin ← float_or_zero out "marginUsed" account
    free_margin ← float_or_zero out "marginAvailable" account
    nav ← float_or_zero out "NAV" account
    currency ← item "currency" found
    balance_text ← item "balance" found
    balance ← lift (out.to_float balance_text)
    pure (record {
      account_number = get_or "id" (str account_id) account;
      currency = currency;
      balance = balance;
      equity = nav;
      margin = margin;
      free_margin = free_margin;
      margin_level = if out.is_positive margin then out.percent nav margin else null;
      server = server_of out url;
    })

  unfoldable pub get_account_info : Fields → Call AccountInfo
  unfolding validate fetch_account fetch_failed handle ◌>>=◌
  get_account_info credentials = do
    found ← validate out credentials
    handle (fetch_account found) fetch_failed

  -- `float(p.get(side, {}).get("units", 0) or 0)`
  unfoldable pub units_of : String → Fields → Call Value
  unfolding as_dict lift get_or or_value ◌>>=◌
  units_of side p = do
    part ← as_dict (get_or side (obj end) p)
    lift (out.to_float (or_value (get_or "units" (int 0) part) (int 0)))

  -- The position of one side: `side` is the key and `word` the side that is shown.
  unfoldable pub side_position : String → String → String → Value → Value → Value → Call Position
  unfolding item as_dict float_or_zero ◌>>=◌
  side_position account_id side word instrument units p = do
    found ← item side p
    part ← as_dict found
    avg_price ← float_or_zero out "averagePrice" part
    upl ← float_or_zero out "unrealizedPL" part
    pure (record {
      position_id = str (account_id <> ":" <> out.text_of instrument);
      symbol = instrument;
      side = str word;
      volume = units;
      open_price = avg_price;
      current_price = avg_price;
      unrealized_pnl = upl;
      open_time = out.now;
      sl = null;
      tp = null;
    })

  unfoldable pub shown : Call Position → Call (Option Position)
  unfolding pure ◌>>=◌
  shown m = do position ← m; pure (some position)

  -- One turn of the loop of `get_positions`: none where neither side has units.
  unfoldable pub position_of : String → Value → Call (Option Position)
  unfolding item as_dict units_of side_position shown pure ◌>>=◌
  position_of account_id p = do
    instrument ← item "instrument" p
    fields ← as_dict p
    long_units ← units_of "long" fields
    short_units ← units_of "short" fields
    if out.is_nonzero long_units
        then shown (side_position account_id "long" "BUY" instrument long_units p)
        else if out.is_nonzero short_units
        then shown (side_position account_id "short" "SELL" instrument (out.absolute short_units) p)
        else pure none

  abbrev pub keep : {A : Type 0} → Option A → List A → List A
  keep none xs = xs
  keep (some x) xs = x ∷ xs

  unfoldable pub positions_of : String → Items → Call (List Position)
  unfolding position_of pure ◌>>=◌
  positions_of account_id nil = pure []
  positions_of account_id (cons p rest) = do
    found ← position_of account_id p
    positions ← positions_of account_id rest
    pure (keep found positions)

  unfoldable pub fetch_positions : String × String × String → Call (List Position)
  unfolding json_of as_dict items_of positions_of get_or ◌>>=◌
  fetch_positions (account_id, token, url) = do
    body ←
        json_of out (out.request url token ("/v3/accounts/" <> account_id <> "/openPositions") none)
          token
    answer ← as_dict body
    items ← items_of (get_or "positions" (arr nil) answer)
    positions_of account_id items

  unfoldable pub get_positions : Fields → Call (List Position)
  unfolding validate fetch_positions fetch_failed handle ◌>>=◌
  get_positions credentials = do
    found ← validate out credentials
    handle (fetch_positions found) fetch_failed

  -- A time that is no number is 0.
  unfoldable pub ms_or_zero : Attempt Value → Call Value
  unfolding pure raise
  ms_or_zero (returned ms) = pure ms
  ms_or_zero (raised class) =
      if str_eq class "ValueError" then pure (int 0) else raise (other class)

  -- `float(p[side][0]["price"])`
  unfoldable pub price_of : String → Value → Call Value
  unfolding item first lift ◌>>=◌
  price_of side p = do
    levels ← item side p
    level ← first levels
    price ← item "price" level
    lift (out.to_float price)

  unfoldable pub fetch_tick : String → String × String × String → Call Tick
  unfolding json_of as_dict first price_of ms_or_zero get_or truthy require ◌>>=◌
  fetch_tick symbol (account_id, token, url) = do
    body ←
        json_of out
          (out.request url token ("/v3/accounts/" <> account_id <> "/pricing") (some symbol)) token
    answer ← as_dict body
    let prices = get_or "prices" (arr nil) answer
    require (truthy prices) (broker unknown_account ("no price for symbol " <> symbol) none)
    p ← first prices
    bid ← price_of "bids" p
    ask ← price_of "asks" p
    fields ← as_dict p
    timestamp_ms ← ms_or_zero (out.to_ms (get_or "time" (str "0") fields))
    pure (record { symbol = str symbol; bid = bid; ask = ask; timestamp_ms = timestamp_ms })

  unfoldable pub get_tick : Fields → String → Call Tick
  unfolding validate fetch_tick fetch_failed handle ◌>>=◌
  get_tick credentials symbol = do
    found ← validate out credentials
    handle (fetch_tick symbol found) fetch_failed
