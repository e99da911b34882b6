-- ===== src/Execution/Entry.antt =====
-- internal/execution/position_manager.go, `finalizeSLTP`: the protection of a filled entry.
-- The notifications and the trade memory are not part of the state.
pub mod Outcomes
use Prim.Native.String.{String}
use mathlib.Core.Option
use binance_futures.Base.{ℕ, Bool, true, false, Option, none, some, List, [], if◌then◌else◌}
use binance_futures.Base.Int.{ℤ, pos}
use binance_futures.Float64.{Float64, nought, hundred}
use binance_futures.Domain.{
  Position, PendingEntry, PendingProtection, OrderRequest, OrderResult, OrderType, Side, Trade,
  LlmDecision,
}
use binance_futures.Execution.World.{
  Mode, paper, live, Config, Exchange, World, Call, place_limit, place_stop_market, place_order,
  cancel, set_pending_protection, set_active_position, insert_trade, remove_pending_entry,
}

abbrev pub is_paper_mode : Mode → Bool
is_paper_mode paper = true
is_paper_mode live = false

-- The prices and quantities that protect a short.
pub record Levels (F : Type 0) : Type 0 where
  pub filled_qty : F
  pub stop_loss : F
  pub tp1_price : F
  pub tp1_qty : F

module _ {F : Type 0} ⦃f : Float64 F⦄ where
  open f use {lit, add, sub, mul, div, eq}

  -- The buy that stops a short out at `trigger`, for the whole position.
  abbrev pub stop_market_request : String → F → Call F
  stop_market_request symbol trigger = place_stop_market (record {
    symbol = symbol;
    side = Side.buy;
    type = OrderType.stop_market;
    quantity = nought;
    price = nought;
    trigger_price = trigger;
    reduce_only = false;
    close_position = true;
    new_client_order_id = "";
  })

  -- The reduce-only limit buy of a take-profit. The code leaves `Type` empty, and the executor sets it.
  abbrev pub take_profit_request : String → F → F → Call F
  take_profit_request symbol quantity price = place_limit (record {
    symbol = symbol;
    side = Side.buy;
    type = OrderType.limit;
    quantity = quantity;
    price = price;
    trigger_price = nought;
    reduce_only = true;
    close_position = false;
    new_client_order_id = "";
  })

  -- `price * (1 - pct/100)`
  abbrev pub below : F → F → F
  below price pct = mul price (sub (lit (pos 1) 0) (div pct hundred))

  module _ (c : Config F) where
    unfoldable pub levels : PendingEntry F → F → F → Levels F
    levels pending avg_fill filled =
        let qty = if eq filled nought then pending.quantity else filled in
        record {
          filled_qty = qty;
          stop_loss = add avg_fill (mul avg_fill (div c.sl_pct hundred));
          tp1_price = sub avg_fill (mul avg_fill (div pending.tp_pct hundred));
          tp1_qty = mul qty (div c.tp1_size_pct hundred);
        }

    -- The record that makes `check` retry both orders.
    abbrev pub both_missing : String → F → Levels F → PendingProtection F
    both_missing symbol entry l = record {
      symbol = symbol;
      needs_sl = true;
      needs_tp = true;
      entry_price = entry;
      quantity = l.filled_qty;
      tp1_qty = l.tp1_qty;
      stop_loss = l.stop_loss;
      take_profit = l.tp1_price;
      retries = 0;
      last_attempt = none;
    }

    abbrev decided_reasons : Option LlmDecision → List String
    decided_reasons none = []
    decided_reasons (some d) = d.entry_reasons

    abbrev decided_confidence : ℤ → Option LlmDecision → ℤ
    decided_confidence given none = given
    decided_confidence given (some d) = d.confidence

    abbrev tp2_id : Option (OrderResult F) → String
    tp2_id none = ""
    tp2_id (some o) = o.client_order_id

    abbrev pub opened_position :
        PendingEntry F → F → Levels F → ℕ → String → String → String → F → Position F
    opened_position pending avg_fill l opened_at sl_id tp_id tp2_id tp2_price = record {
      symbol = pending.symbol;
      side = Side.sell;
      entry_price = avg_fill;
      quantity = l.filled_qty;
      original_qty = l.filled_qty;
      leverage = c.leverage;
      entry_mode = pending.window;
      mark_price = nought;
      stop_loss = l.stop_loss;
      take_profit = l.tp1_price;
      sl_order_id = sl_id;
      tp_order_id = tp_id;
      trade_id = pending.trade_id;
      opened_at = opened_at;
      is_paper = is_paper_mode c.mode;
      breakeven_moved = false;
      tp1_filled = false;
      tp1_fill_price = nought;
      tp1_filled_at = none;
      trailing_order_id = "";
      trailing_sl_order_id = "";
      tp2_order_id = tp2_id;
      tp2_price = tp2_price;
      last_force_sl_check = none;
      force_sl_count = 0;
      llm_entry_reasons = decided_reasons pending.llm_decision;
      original_confidence = decided_confidence pending.confidence pending.llm_decision;
      high_since_entry = avg_fill;
      low_since_entry = avg_fill;
      funding_rate_at_entry = pending.funding_rate_at_entry;
      funding_fee_paid = false;
      funding_fee_paid_pct = nought;
      funding_fee_paid_amount = nought;
      settlement_passed_at = none;
      tp_widened = false;
      trailing_peak = nought;
    }

    abbrev pub opened_trade : PendingEntry F → F → Levels F → ℕ → Trade F
    opened_trade pending avg_fill l opened_at = record {
      id = pending.trade_id;
      symbol = pending.symbol;
      side = Side.sell;
      entry_mode = pending.window;
      leverage = c.leverage;
      confidence = pending.confidence;
      funding_rate = pending.funding_rate;
      change_24h = pending.change_24h;
      entry_price = avg_fill;
      quantity = l.filled_qty;
      is_paper = is_paper_mode c.mode;
      created_at = opened_at;
      llm_confidence = Option.map (λ d. d.confidence) pending.llm_decision;
      llm_entry_mode = Option.map (λ d. d.entry_mode) pending.llm_decision;
      llm_entry_reasons = decided_reasons pending.llm_decision;
      llm_warnings = elim pending.llm_decision [ none ↦ [] | some d ↦ d.warnings ];
    }

    module _ (x : Exchange F) where
      -- From the placement of TP2 on.
      pub activate : PendingEntry F → F → Levels F → ℕ → String → String → World F → World F
      activate pending avg_fill l opened_at sl_id tp_id w =
          let tp2_price = below avg_fill c.tp2_pct in
          let (tp2_order, w') =
            place_order x
              (take_profit_request pending.symbol (sub l.filled_qty l.tp1_qty) tp2_price) w in
          let position =
            opened_position pending avg_fill l opened_at sl_id tp_id (tp2_id tp2_order) tp2_price in
          let inserted = insert_trade (opened_trade pending avg_fill l opened_at) w' in
          remove_pending_entry pending.trade_id (set_active_position position inserted)

      -- From the placement of TP1 on.
      pub protect_profit : PendingEntry F → F → Levels F → ℕ → String → World F → World F
      unfolding activate
      protect_profit pending avg_fill l opened_at sl_id w =
          let (tp_order, w') =
            place_order x (take_profit_request pending.symbol l.tp1_qty l.tp1_price) w in
          elim tp_order [
            | none ↦
                set_pending_protection (both_missing pending.symbol avg_fill l)
                  (cancel x pending.symbol sl_id w').1
            | some o ↦ activate pending avg_fill l opened_at sl_id o.client_order_id w'
          ]

      unfoldable pub finalize_sltp : PendingEntry F → F → F → ℕ → World F → World F
      unfolding protect_profit levels
      finalize_sltp pending avg_fill filled opened_at w =
          let l = levels pending avg_fill filled in
          let (sl_order, w') = place_order x (stop_market_request pending.symbol l.stop_loss) w in
          elim sl_order [
            | none ↦ set_pending_protection (both_missing pending.symbol avg_fill l) w'
            | some o ↦ protect_profit pending avg_fill l opened_at o.client_order_id w'
          ]
