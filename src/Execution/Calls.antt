-- ===== src/Execution/Calls.antt =====
-- The orders that protect and close a short, field by field, for the statements about the calls that
-- internal/execution/position_manager.go makes.
use Prim.Native.String.{String}
use binance_futures.Base.{true, false}
use binance_futures.Base.Int.{pos}
use binance_futures.Float64.{Float64, nought, hundred}
use binance_futures.Domain.{OrderType, Side}
use binance_futures.Execution.World.{Call, place_limit, place_market, place_stop_market}

module _ {F : Type 0} ⦃f : Float64 F⦄ where
  open f use {lit, sub, mul, div}

  -- A stop at the market that buys the whole position back at `trigger`.
  abbrev pub buy_stop : String → F → Call F
  buy_stop symbol trigger = place_stop_market (record {
    symbol = symbol;
    side = Side.buy;
    type = OrderType.stop_market;
    quantity = nought;
    price = nought;
    trigger_price = trigger;
    reduce_only = false;
    close_position = true;
    new_client_order_id = "";
  })

  -- A limit order that buys `quantity` back at `price` and only reduces the position.
  abbrev pub buy_limit : String → F → F → Call F
  buy_limit symbol quantity price = place_limit (record {
    symbol = symbol;
    side = Side.buy;
    type = OrderType.limit;
    quantity = quantity;
    price = price;
    trigger_price = nought;
    reduce_only = true;
    close_position = false;
    new_client_order_id = "";
  })

  -- An order that buys `quantity` back at the market and only reduces the position.
  abbrev pub buy_back : String → F → String → Call F
  buy_back symbol quantity client_id = place_market (record {
    symbol = symbol;
    side = Side.buy;
    type = OrderType.market;
    quantity = quantity;
    price = nought;
    trigger_price = nought;
    reduce_only = true;
    close_position = false;
    new_client_order_id = client_id;
  })

  -- The price that lies `pct` percent below.
  abbrev pub less_percent : F → F → F
  less_percent price pct = mul price (sub (lit (pos 1) 0) (div pct hundred))
