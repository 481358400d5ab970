-- ===== src/Brokers/Runner/Operations.antt =====
-- workers/mt5_runner.py: the four operations.
use aurum_platform.Common.{
  Bool, true, false, none, some, List, [], ◌∷◌, ◌<>◌, str_eq, if◌then◌else◌, Option, String,
}
use aurum_platform.Json.{
  Value, null, str, arr, obj, Fields, end, field, Items, nil, cons, as_text, truthy,
}
use aurum_platform.Exec.{pure, ◌>>=◌, ◌>>◌}
use aurum_platform.Services.{Attempt}
use aurum_platform.Brokers.{call}
use aurum_platform.Brokers.Dicts.{lift, as_dict, get_or}
use aurum_platform.Brokers.Runner.{
  Run, OpenPosition, Quote, Terminal, fail, some_or_fail, check_or_fail, float_of,
}

module _ (mt5 : Terminal) where
  -- `_op_test_connection`
  unfoldable pub op_test_connection : Run Fields
  unfolding some_or_fail call ◌>>=◌
  op_test_connection = do
    info ← some_or_fail mt5.account_info "CONNECTION_ERROR" "account_info() returned None"
    balance ← float_of mt5 info.balance
    equity ← float_of mt5 info.equity
    pure (
        field "account_number" (str (mt5.text_of info.login)) (
          field "account_currency" info.currency
            (field "server" info.server (field "balance" balance (field "equity" equity end)))))

  -- `float(v) if test else None`
  unfoldable pub float_if : Bool → Value → Run Value
  unfolding call pure
  float_if true v = float_of mt5 v
  float_if false v = pure null

  -- `_op_get_account_info`
  unfoldable pub op_get_account_info : Run Fields
  unfolding some_or_fail call float_if ◌>>=◌
  op_get_account_info = do
    info ← some_or_fail mt5.account_info "CONNECTION_ERROR" "account_info() returned None"
    balance ← float_of mt5 info.balance
    equity ← float_of mt5 info.equity
    margin ← float_of mt5 info.margin
    free_margin ← float_of mt5 info.margin_free
    margin_level ← float_if (mt5.is_positive info.margin) info.margin_level
    pure (
        field "account_number" (str (mt5.text_of info.login)) (
          field "currency" info.currency (
            field "balance" balance (
              field "equity" equity (
                field "margin" margin (
                  field "free_margin" free_margin
                    (field "margin_level" margin_level (field "server" info.server end))))))))

  -- `float(v) if v else None`
  abbrev float_if_true : Value → Run Value
  float_if_true v = float_if (truthy v) v

  -- One turn of the loop of `_op_get_positions`.
  unfoldable pub position_fields : OpenPosition → Run Fields
  unfolding call float_if truthy pure ◌>>=◌
  position_fields p = do
    volume ← float_of mt5 p.volume
    open_price ← float_of mt5 p.price_open
    current_price ← float_of mt5 p.price_current
    unrealized_pnl ← float_of mt5 p.profit
    open_time ← float_of mt5 p.time
    sl ← float_if_true p.sl
    tp ← float_if_true p.tp
    pure (
        field "position_id" (str (mt5.text_of p.ticket)) (
          field "symbol" p.symbol (
            field "side" (str (if mt5.is_zero p.kind then "BUY" else "SELL")) (
              field "volume" volume (
                field "open_price" open_price (
                  field "current_price" current_price (
                    field "unrealized_pnl" unrealized_pnl
                      (field "open_time" open_time (field "sl" sl (field "tp" tp end))))))))))

  unfoldable pub positions_fields : List OpenPosition → Run Items
  unfolding position_fields pure ◌>>=◌
  positions_fields [] = pure nil
  positions_fields (p ∷ rest) = do
    fields ← position_fields p
    more ← positions_fields rest
    pure (cons (obj fields) more)

  -- `_op_get_positions`
  unfoldable pub op_get_positions : Run Fields
  unfolding positions_fields pure ◌>>=◌
  op_get_positions = do
    items ← positions_fields (elim mt5.positions [ none ↦ [] | some ps ↦ ps ])
    pure (field "positions" (arr items) end)

  -- `int(tick.time_msc)`, or else `int(tick.time * 1000)`
  unfoldable pub quote_ms : Quote → Attempt Value
  quote_ms q = elim q.time_msc [ none ↦ mt5.to_ms q.time | some ms ↦ mt5.to_int ms ]

  -- `_op_get_tick`
  unfoldable pub op_get_tick : Value → Run Fields
  unfolding call check_or_fail some_or_fail quote_ms get_or truthy pure ◌>>=◌
  op_get_tick args = do
    fields ← call (as_dict args)
    let symbol = get_or "symbol" null fields
    check_or_fail (truthy symbol) "VALIDATION" "missing symbol"
    quote ←
        some_or_fail (mt5.quote symbol) "NOT_FOUND" ("no tick for symbol " <> mt5.text_of symbol)
    bid ← float_of mt5 quote.bid
    ask ← float_of mt5 quote.ask
    timestamp_ms ← call (lift (quote_ms quote))
    pure (
        field "symbol" symbol
          (field "bid" bid (field "ask" ask (field "timestamp_ms" timestamp_ms end))))

  -- The choice of the operation in `main`, with the operation as a text where it is one.
  unfoldable pub operate_named : Option String → Value → Value → Run Fields
  unfolding op_test_connection op_get_account_info op_get_positions op_get_tick fail
  operate_named none operation args =
      fail "BAD_REQUEST" ("unknown operation: " <> mt5.text_of operation)
  operate_named (some name) operation args =
      if str_eq name "test_connection"
      then op_test_connection
      else if str_eq name "get_account_info"
      then op_get_account_info
      else if str_eq name "get_positions"
      then op_get_positions
      else if str_eq name "get_tick"
      then op_get_tick args
      else fail "BAD_REQUEST" ("unknown operation: " <> name)

  unfoldable pub operate : Value → Value → Run Fields
  unfolding operate_named
  operate operation args = operate_named (as_text (some operation)) operation args
