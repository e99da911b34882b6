-- ===== src/Execution/Reconcile/Startup.antt =====
-- `rehydratePosition` and `Reconcile` of internal/execution/reconciler.go.
use Prim.Native.String.{String}
use text.Mathlib.Text.{◌==◌ as str_eq}
use binance_futures.Base.{
  ℕ, false, not, ◌&&◌, ◌||◌, Option, none, some, List, [], ◌∷◌, keep, if◌then◌else◌,
}
use binance_futures.Base.Int.{pos}
use binance_futures.Float64.{Float64, nought, hundred}
use binance_futures.Domain.{EntryMode, OrderResult, Position, Side, Trade}
use binance_futures.Execution.World.{
  Config, Exchange, World, find_position, insert_trade, place_order, set_active_position,
}
use binance_futures.Execution.Entry.{is_paper_mode, stop_market_request, take_profit_request}
use binance_futures.Execution.Reconcile.{
  OpenOrder, PositionRisk, orders_of, risk_of, verify_and_replace, cleanup_stale_position,
}

-- The identifiers of the stop and of the take-profit among the live orders.
pub record KnownOrders : Type 0 where
  pub stop : String
  pub profit : String

module _ {F : Type 0} where
  -- The identifier that a live order gives.
  abbrev pub note_order : OpenOrder F → KnownOrders → KnownOrders
  note_order o k =
      if o.reduce_only && str_eq o.side "BUY"
      then (if str_eq o.type "STOP_MARKET" || str_eq o.type "MARKET" || str_eq o.type "LIMIT"
          then record k { stop = o.client_order_id }
          else if str_eq o.type "TAKE_PROFIT"
          then record k { profit = o.client_order_id }
          else k)
      else k

  abbrev pub known_orders : KnownOrders → List (OpenOrder F) → KnownOrders
  known_orders k [] = k
  known_orders k (o ∷ orders) = known_orders (note_order o k) orders

  -- The identifier of an order that was placed, or the one before.
  abbrev pub placed_id : String → Option (OrderResult F) → String
  placed_id id none = id
  placed_id id (some o) = o.client_order_id

module _ {F : Type 0} ⦃f : Float64 F⦄ (id_text : ℕ → String) (x : Exchange F) where
  open f use {lit, add, sub, mul, div, neg, abs, lt, le, eq}

  module _ (c : Config F) (now : ℕ) (trade_id : String → ℕ) where
    -- The short of the exchange as a position, with the stop and the take-profit that were found.
    abbrev pub rehydrated : PositionRisk F → F → String → String → Position F
    rehydrated r qty sl_id tp_id = record {
      symbol = r.symbol;
      side = Side.sell;
      entry_price = r.entry_price;
      quantity = qty;
      original_qty = qty;
      leverage = c.leverage;
      entry_mode = EntryMode.last_minute;
      mark_price = nought;
      stop_loss = add r.entry_price (mul r.entry_price (div c.sl_pct hundred));
      take_profit = sub r.entry_price (mul r.entry_price (div c.tp_pct hundred));
      sl_order_id = sl_id;
      tp_order_id = tp_id;
      trade_id = trade_id r.symbol;
      opened_at = now;
      is_paper = is_paper_mode c.mode;
      breakeven_moved = false;
      tp1_filled = false;
      tp1_fill_price = nought;
      tp1_filled_at = none;
      trailing_order_id = "";
      trailing_sl_order_id = "";
      tp2_order_id = "";
      tp2_price = nought;
      last_force_sl_check = none;
      force_sl_count = 0;
      llm_entry_reasons = [];
      original_confidence = pos 0;
      high_since_entry = r.entry_price;
      low_since_entry = r.entry_price;
      funding_rate_at_entry = nought;
      funding_fee_paid = false;
      funding_fee_paid_pct = nought;
      funding_fee_paid_amount = nought;
      settlement_passed_at = none;
      tp_widened = false;
      trailing_peak = nought;
    }

    abbrev pub rehydrated_trade : PositionRisk F → Trade F
    rehydrated_trade r = record {
      id = trade_id r.symbol;
      symbol = r.symbol;
      side = Side.sell;
      entry_mode = EntryMode.last_minute;
      leverage = c.leverage;
      confidence = pos 0;
      funding_rate = nought;
      change_24h = nought;
      entry_price = r.entry_price;
      quantity = nought;
      is_paper = is_paper_mode c.mode;
      created_at = now;
      llm_confidence = none;
      llm_entry_mode = none;
      llm_entry_reasons = [];
      llm_warnings = [];
    }

    -- The stop, if no live order was taken for it. A refused one leaves the identifier empty.
    abbrev pub rehydrate_stop : PositionRisk F → KnownOrders → World F → String × World F
    rehydrate_stop r k w =
        if str_eq k.stop ""
        then (let (order, w') =
              place_order x
                (stop_market_request r.symbol
                  (add r.entry_price (mul r.entry_price (div c.sl_pct hundred))))
                w in
            (placed_id "" order, w'))
        else (k.stop, w)

    abbrev pub rehydrate_profit : PositionRisk F → F → KnownOrders → World F → String × World F
    rehydrate_profit r qty k w =
        if str_eq k.profit ""
        then (let (order, w') =
              place_order x
                (take_profit_request r.symbol (mul qty (div c.tp1_size_pct hundred))
                  (sub r.entry_price (mul r.entry_price (div c.tp_pct hundred))))
                w in
            (placed_id "" order, w'))
        else (k.profit, w)

    -- `rehydratePosition`. A position that is not a short is an error.
    unfoldable pub rehydrate_position : PositionRisk F → List (OpenOrder F) → World F → World F
    rehydrate_position r orders w =
        let qty = neg r.position_amt in
        let k = known_orders (record { stop = ""; profit = "" }) orders in
        let (sl_id, w') = rehydrate_stop r k w in
        let (tp_id, w'') = rehydrate_profit r qty k w' in
        if le qty nought
        then w
        else insert_trade (rehydrated_trade r)
            (set_active_position (rehydrated r qty sl_id tp_id) w'')

    -- The positions of the exchange; `cached` are those of the cache at the start.
    abbrev pub reconcile_live :
        List (PositionRisk F) → List (OpenOrder F) → List (Position F) → World F → World F
    reconcile_live [] orders cached w = w
    reconcile_live (r ∷ rs) orders cached w =
        reconcile_live rs orders cached (elim (find_position r.symbol cached) [
          | none ↦ rehydrate_position r (orders_of r.symbol orders) w
          | some p ↦ verify_and_replace id_text x (orders_of r.symbol orders) p w
        ])

    -- The cached positions that the exchange does not have.
    abbrev pub reconcile_stale : List (Position F) → List (PositionRisk F) → World F → World F
    reconcile_stale [] rs w = w
    reconcile_stale (p ∷ ps) rs w =
        reconcile_stale ps rs
          (elim (risk_of p.symbol rs) [ none ↦ cleanup_stale_position now p w | some _ ↦ w ])

    abbrev pub reconcile_live_and_stale :
        List (PositionRisk F) → List (OpenOrder F) → World F → World F
    reconcile_live_and_stale rs orders w =
        reconcile_stale w.active rs (reconcile_live rs orders w.active w)

    abbrev pub reconcile_with :
        Option (List (PositionRisk F)) → Option (List (OpenOrder F)) → World F → World F
    reconcile_with (some rs) (some orders) w =
        reconcile_live_and_stale (keep (λ r. not (eq r.position_amt nought)) rs) orders w
    reconcile_with _ _ w = w

    -- `Reconcile`, of the answers to the position and the order requests; `none` is an error.
    unfoldable pub reconcile :
        Option (List (PositionRisk F)) → Option (List (OpenOrder F)) → World F → World F
    reconcile risks orders w = if is_paper_mode c.mode then w else reconcile_with risks orders w
