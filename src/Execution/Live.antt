-- ===== src/Execution/Live.antt =====
-- internal/execution/live_executor.go, as an exchange over the REST client. The client's answers, by the
-- calls before, and the formatting of `strconv` are parameters. The stop-limit and trailing orders have
-- no caller and are left out. A response names a side; the text of any other is not modelled.
pub mod Repairs
mod Tests
use Prim.Native.Char.{code}
use Prim.Native.String.{String, [], ◌∷◌, len}
use text.Mathlib.Text.{◌==◌ as str_eq, starts_with}
use mathlib.Core.Option
use binance_futures.Base.{
  ℕ, ◌*◌, Bool, true, false, not, ◌&&◌, ◌||◌, Option, none, some, List, ◌==◌, if◌then◌else◌,
}
use binance_futures.Base.Int.{ℤ, pos, negsuc}
use binance_futures.Float64.{Float64, nought}
use binance_futures.Domain.{
  PendingEntry, Balance, EntryMode, OrderRequest, OrderResult, OrderType, Position, Side, buy, sell,
}
use binance_futures.Execution.Reconcile.{PositionRisk}
use binance_futures.Execution.World.{
  Call, Exchange, PositionReply, absent, found, unreachable, place_limit, place_market,
  place_stop_market,
}

pub record NewOrderRequest : Type 0 where
  pub symbol : String
  pub side : String
  pub type : String
  pub quantity : String
  pub price : String
  pub trigger_price : String
  pub reduce_only : Bool
  pub new_client_order_id : String
  pub close_position : Bool

pub record NewOrderResponse (F : Type 0) : Type 0 where
  pub order_id : ℤ
  pub symbol : String
  pub status : String
  pub side : Side
  pub avg_price : F
  pub executed_qty : F
  pub update_time : ℕ
  pub client_order_id : String

pub record NewAlgoOrderResponse (F : Type 0) : Type 0 where
  pub algo_id : ℤ
  pub client_algo_id : String
  pub symbol : String
  pub algo_status : String
  pub side : Side
  pub quantity : F
  pub price : F
  pub update_time : ℕ

pub record SymbolRule (F : Type 0) : Type 0 where
  pub step_size : F
  pub tick_size : F

pub record AssetBalance (F : Type 0) : Type 0 where
  pub asset : String
  pub wallet_balance : F
  pub available_balance : F

-- `none` is an error, but for the two cancels, where it is none and `some` has its text. The inner
-- option of `position_risk` is nil. `format_float` is `strconv.FormatFloat` with 'f'.
pub record LiveClient (F : Type 0) : Type 0 where
  pub new_order : List (Call F) → NewOrderRequest → Option (NewOrderResponse F)
  pub new_algo_order : List (Call F) → NewOrderRequest → Option (NewAlgoOrderResponse F)
  pub cancel_order_error : List (Call F) → String → String → Option String
  pub cancel_algo_order_error : List (Call F) → String → Option String
  pub position_risk : List (Call F) → String → Option (Option (PositionRisk F))
  pub account : List (Call F) → Option (List (AssetBalance F))
  pub leverage_set : List (Call F) → String → Bool
  pub rules_of : String → Option (SymbolRule F)
  pub format_float : F → ℤ → String
  pub format_int : ℤ → String
  pub uuid_text : ℕ → String
  pub entry_json : PendingEntry F → Option String
  pub entry_of_json : String → Option (PendingEntry F)

-- `strings.Contains`.
abbrev pub contains : String → String → Bool
contains [] part = starts_with [] part
contains (c ∷ s) part = let rest = contains s part in starts_with (c ∷ s) part || rest

-- `strings.TrimRight` of zeros.
abbrev pub without_zeros : String → String
without_zeros [] = []
without_zeros (c ∷ s) =
    let rest = without_zeros s in if str_eq rest "" && (code c == 48) then [] else c ∷ rest

-- The text after the first dot.
abbrev pub after_dot : String → Option String
after_dot [] = none
after_dot (c ∷ s) = let rest = after_dot s in if code c == 46 then some s else rest

abbrev pub places_of : Option String → ℤ
places_of none = pos 0
places_of (some s) = pos (len s)

abbrev pub side_text : Side → String
side_text Side.sell = "SELL"
side_text Side.buy = "BUY"

abbrev pub type_text : OrderType → String
type_text OrderType.market = "MARKET"
type_text OrderType.limit = "LIMIT"
type_text OrderType.stop = "STOP"
type_text OrderType.stop_market = "STOP_MARKET"
type_text OrderType.take_profit = "TAKE_PROFIT"
type_text OrderType.trailing_stop_market = "TRAILING_STOP_MARKET"

module _ {F : Type 0} where
  -- The loop of `GetAccountBalance`.
  abbrev pub usdt_of : List (AssetBalance F) → Option (Balance F)
  usdt_of List.[] = none
  usdt_of (List.◌∷◌ a bs) =
      let others = usdt_of bs in
      if str_eq a.asset "USDT"
      then some (record {
        asset = "USDT";
        total_balance = a.wallet_balance;
        available_balance = a.available_balance;
      })
      else others

  abbrev pub market_result : (ℤ → String) → NewOrderResponse F → OrderResult F
  market_result format_int r = record {
    order_id = format_int r.order_id;
    symbol = r.symbol;
    side = r.side;
    fill_price = r.avg_price;
    quantity = r.executed_qty;
    status = r.status;
    is_paper = false;
    timestamp = r.update_time * 1_000_000;
    client_order_id = r.client_order_id;
  }

  abbrev pub algo_result : (ℤ → String) → NewAlgoOrderResponse F → OrderResult F
  algo_result format_int r = record {
    order_id = format_int r.algo_id;
    symbol = r.symbol;
    side = r.side;
    fill_price = r.price;
    quantity = r.quantity;
    status = r.algo_status;
    is_paper = false;
    timestamp = r.update_time * 1_000_000;
    client_order_id = r.client_algo_id;
  }

module _ {F : Type 0} ⦃f : Float64 F⦄ where
  open f use {lt, eq, mul, div, neg, ceil}

  -- `math.Floor(x)`, which is `-math.Ceil(-x)`.
  abbrev pub floor : F → F
  floor x = neg (ceil (neg x))

  abbrev pub round_down : F → F → F
  round_down value step = if eq step nought then value else mul (floor (div value step)) step

  -- The position of a reply, with the zero values of the fields that are not set. A time that is not
  -- set is 0 here.
  abbrev pub position_of : PositionRisk F → Position F
  position_of r =
      let qty = if lt r.position_amt nought then neg r.position_amt else r.position_amt in
      record {
        symbol = r.symbol;
        side = if lt nought r.position_amt then Side.buy else Side.sell;
        entry_price = r.entry_price;
        quantity = qty;
        original_qty = qty;
        leverage = pos 0;
        entry_mode = EntryMode.other "";
        mark_price = r.mark_price;
        stop_loss = nought;
        take_profit = nought;
        sl_order_id = "";
        tp_order_id = "";
        trade_id = 0;
        opened_at = 0;
        is_paper = false;
        breakeven_moved = false;
        tp1_filled = false;
        tp1_fill_price = nought;
        tp1_filled_at = none;
        trailing_order_id = "";
        trailing_sl_order_id = "";
        tp2_order_id = "";
        tp2_price = nought;
        last_force_sl_check = none;
        force_sl_count = 0;
        llm_entry_reasons = List.[];
        original_confidence = pos 0;
        high_since_entry = nought;
        low_since_entry = nought;
        funding_rate_at_entry = nought;
        funding_fee_paid = false;
        funding_fee_paid_pct = nought;
        funding_fee_paid_amount = nought;
        settlement_passed_at = none;
        tp_widened = false;
        trailing_peak = nought;
      }

  abbrev pub live_position : Option (Option (PositionRisk F)) → PositionReply F
  live_position none = unreachable
  live_position (some none) = absent
  live_position (some (some r)) = if eq r.position_amt nought then absent else found (position_of r)

  module _ (x : LiveClient F) where
    abbrev pub rules : String → SymbolRule F
    rules symbol = elim (x.rules_of symbol) [
      | some r ↦ r
      | none ↦ record { step_size = nought; tick_size = nought }
    ]

    abbrev pub get_price_precision : F → ℤ
    get_price_precision tick = places_of (after_dot (without_zeros (x.format_float tick (pos 10))))

    abbrev pub get_quantity_precision : F → ℤ
    get_quantity_precision step = places_of (after_dot (x.format_float step (negsuc 0)))

    abbrev pub format_qty : String → F → String
    format_qty symbol v =
        let step = (rules symbol).step_size in
        x.format_float (round_down v step) (get_quantity_precision step)

    abbrev pub format_price : String → F → String
    format_price symbol v =
        let tick = (rules symbol).tick_size in
        if eq tick nought
        then x.format_float v (pos 2)
        else x.format_float (round_down v tick) (get_price_precision tick)

    abbrev pub market_request : OrderRequest F → NewOrderRequest
    market_request r = record {
      symbol = r.symbol;
      side = side_text r.side;
      type = "MARKET";
      quantity = format_qty r.symbol r.quantity;
      price = "";
      trigger_price = "";
      reduce_only = r.reduce_only;
      new_client_order_id = r.new_client_order_id;
      close_position = false;
    }

    abbrev pub limit_request : OrderRequest F → NewOrderRequest
    limit_request r = record {
      symbol = r.symbol;
      side = side_text r.side;
      type = "LIMIT";
      quantity = format_qty r.symbol r.quantity;
      price = format_price r.symbol r.price;
      trigger_price = "";
      reduce_only = r.reduce_only;
      new_client_order_id = "";
      close_position = false;
    }

    abbrev pub stop_request : OrderRequest F → NewOrderRequest
    stop_request r = record {
      symbol = r.symbol;
      side = side_text r.side;
      type = type_text r.type;
      quantity = "";
      price = "";
      trigger_price = format_price r.symbol r.trigger_price;
      reduce_only = false;
      new_client_order_id = "";
      close_position = r.close_position;
    }

    abbrev pub live_place : List (Call F) → Call F → Option (OrderResult F)
    live_place calls (place_market r) =
        Option.map (market_result x.format_int) (x.new_order calls (market_request r))
    live_place calls (place_limit r) =
        Option.map (market_result x.format_int) (x.new_order calls (limit_request r))
    live_place calls (place_stop_market r) =
        Option.map (algo_result x.format_int) (x.new_algo_order calls (stop_request r))
    live_place calls _ = none

    -- An order that is no ordinary one, which is error -2011, is cancelled as an algo order.
    abbrev pub is_done : Option String → Bool
    is_done none = true
    is_done (some _) = false

    unfoldable pub live_cancel : List (Call F) → String → String → Bool
    live_cancel calls symbol id = elim (x.cancel_order_error calls symbol id) [
      | none ↦ true
      | some error ↦
          if contains error "-2011" then is_done (x.cancel_algo_order_error calls id) else false
    ]

    unfoldable pub live_executor : Exchange F
    live_executor = record {
      place = live_place;
      cancel = live_cancel;
      position = λ calls symbol. live_position (x.position_risk calls symbol);
      balance = λ calls. elim (x.account calls) [ none ↦ none | some bs ↦ usdt_of bs ];
      leverage_set = x.leverage_set;
      uuid_text = x.uuid_text;
      entry_json = x.entry_json;
      entry_of_json = x.entry_of_json;
    }
