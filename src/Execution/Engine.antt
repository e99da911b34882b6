-- ===== src/Execution/Engine.antt =====
-- internal/execution/engine.go, `execute`: from a scored candidate to a market order. The notification
-- of a failure is not part of the state.
pub mod Guards
use Prim.Native.String.{String}
use text.Mathlib.Text.{◌==◌ as str_eq}
use binance_futures.Base.{
  ℕ, ◌+◌, Bool, true, false, Option, none, some, List, [], ◌∷◌, any, length, ltb, if◌then◌else◌,
}
use binance_futures.Base.Int.{ℤ, pos}
use binance_futures.Float64.{Float64, nought, hundred}
use binance_futures.Domain.{
  Position, PendingEntry, OrderRequest, OrderResult, OrderType, Side, EntryMode, Balance,
  LlmDecision, ScoredCandidate,
}
use binance_futures.Scheduler.{second}
use binance_futures.Execution.World.{
  Mode, paper, live, Config, Exchange, World, Call, place_market, get_balance, place_order,
  set_pending_entry, remove_pending_entry, set_active_position_if_absent,
}
use binance_futures.Execution.Entry.{is_paper_mode, finalize_sltp}

-- What `execute` returns: nil, `ErrSkipped` or an error.
pub data Outcome : Type 0 where
  placed kill_switch_active at_max_positions in_position at_loss_limit no_balance
        insufficient_balance refused_order :
      Outcome

-- What `execute` is called with and reads from the market, the clock and the UUID source.
pub record Order (F : Type 0) : Type 0 where
  pub scored : ScoredCandidate F
  pub entry_mode : EntryMode
  pub position_size_pct : F
  pub confidence : ℤ
  pub llm_decision : Option LlmDecision
  pub now : ℕ
  pub trade_id : ℕ
  pub funding_rate : F
  pub price : F
  pub finalized_at : ℕ

module _ {F : Type 0} ⦃f : Float64 F⦄ where
  open f use {lit, of_int, mul, div, minimum, lt, eq}

  module _ (c : Config F) (x : Exchange F) where
    -- The cached balance, or the exchange's, which is then cached.
    abbrev pub read_balance : World F → Option (Balance F) × World F
    read_balance w = elim w.cached_balance [
      | some b ↦ (some b, w)
      | none ↦
          let w' = record w { calls = get_balance ∷ w.calls } in
          elim (x.balance w.calls) [
            | none ↦ (none, w')
            | some b ↦ (some b, record w' { cached_balance = some b })
          ]
    ]

    abbrev pub margin : Balance F → ScoredCandidate F → F
    margin b sc = minimum (div (mul b.total_balance sc.position_size_pct) hundred) (lit (pos 500) 0)

    unfoldable pub order_qty : Balance F → ScoredCandidate F → F
    order_qty b sc = div (mul (margin b sc) (of_int c.leverage)) sc.candidate.mark_price

    abbrev pub pending_of : Order F → F → PendingEntry F
    pending_of o qty = record {
      trade_id = o.trade_id;
      order_id = "";
      symbol = o.scored.candidate.symbol;
      quantity = qty;
      position_size_pct = o.position_size_pct;
      confidence = o.confidence;
      window = o.entry_mode;
      tp_pct = c.tp_pct;
      llm_decision = o.llm_decision;
      created_at = o.now;
      expires_at = o.now + 70_000_000_000;
      funding_rate_at_entry = o.funding_rate;
      funding_rate = o.scored.candidate.funding_rate;
      change_24h = o.scored.candidate.daily_roi;
      scored_candidate = some o.scored;
      indicator_snapshot = o.scored.indicators;
      btc_context = o.scored.btc_context;
    }

    abbrev pub sell_request : Order F → F → Call F
    sell_request o qty = place_market (record {
      symbol = o.scored.candidate.symbol;
      side = Side.sell;
      type = OrderType.market;
      quantity = qty;
      price = nought;
      trigger_price = nought;
      reduce_only = false;
      close_position = false;
      new_client_order_id = x.uuid_text o.trade_id;
    })

    -- The position until the fill is confirmed: it has no protection orders.
    abbrev pub stub_of : Order F → F → OrderResult F → Position F
    stub_of o qty r = record {
      symbol = o.scored.candidate.symbol;
      side = Side.sell;
      entry_price = o.price;
      quantity = qty;
      original_qty = qty;
      leverage = c.leverage;
      entry_mode = o.entry_mode;
      mark_price = nought;
      stop_loss = nought;
      take_profit = nought;
      sl_order_id = "";
      tp_order_id = "";
      trade_id = o.trade_id;
      opened_at = r.timestamp;
      is_paper = is_paper_mode c.mode;
      breakeven_moved = false;
      tp1_filled = false;
      tp1_fill_price = nought;
      tp1_filled_at = none;
      trailing_order_id = "";
      trailing_sl_order_id = "";
      tp2_order_id = "";
      tp2_price = nought;
      last_force_sl_check = none;
      force_sl_count = 0;
      llm_entry_reasons = [];
      original_confidence = o.confidence;
      high_since_entry = nought;
      low_since_entry = nought;
      funding_rate_at_entry = o.funding_rate;
      funding_fee_paid = false;
      funding_fee_paid_pct = nought;
      funding_fee_paid_amount = nought;
      settlement_passed_at = none;
      tp_widened = false;
      trailing_peak = nought;
    }

    -- In paper mode the order has filled, and the protection is placed at once.
    abbrev pub confirm_paper : Mode → Order F → F → OrderResult F → World F → World F
    confirm_paper live o qty r w = w
    confirm_paper paper o qty r w =
        let fill = if eq r.fill_price nought then o.scored.candidate.mark_price else r.fill_price in
        finalize_sltp c x (pending_of o qty) fill r.quantity o.finalized_at w

    -- From the storing of the pending entry on.
    unfoldable pub place_entry : Order F → F → World F → Outcome × World F
    place_entry o qty w =
        let (order, w') =
          place_order x (sell_request o qty) (set_pending_entry x o.now (pending_of o qty) w) in
        elim order [
          | none ↦ (refused_order, remove_pending_entry o.trade_id w')
          | some r ↦ (
            placed,
            confirm_paper c.mode o qty r (set_active_position_if_absent (stub_of o qty r) w'),
          )
        ]

    -- From the reading of the balance on.
    unfoldable pub fund_entry : Order F → World F → Outcome × World F
    unfolding place_entry order_qty
    fund_entry o w =
        let (balance, w') = read_balance w in
        elim balance [
          | none ↦ (no_balance, w')
          | some b ↦
              if lt b.available_balance (margin b o.scored)
              then (insufficient_balance, w')
              else place_entry o (order_qty b o.scored) w'
        ]

    unfoldable pub execute : Order F → World F → Outcome × World F
    unfolding fund_entry
    execute o w =
        if w.kill_switch
        then (kill_switch_active, w)
        else if ltb c.max_positions (length w.active)
        then (at_max_positions, w)
        else if any (λ p. str_eq p.symbol o.scored.candidate.symbol) w.active
        then (in_position, w)
        else if ltb c.max_daily_losses w.daily_losses
        then (at_loss_limit, w)
        else fund_entry o w
