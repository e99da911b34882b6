-- ===== src/Execution/Close/Outcomes.antt =====
-- What every way of closing a position does to the positions, the results and the loss count.
use Prim.Native.String.{String}
use text.Mathlib.Text.{◌==◌ as str_eq}
use binance_futures.Base.Int.{pos}
use binance_futures.Base.{not, ◌&&◌, ℕ, ◌+◌, ◌≡◌, ◌≢◌, refl, none, ◌∷◌, arith, if◌then◌else◌}
use binance_futures.Float64.{Float64, nought, hundred}
use binance_futures.Domain.{
  Position, ExitInfo, Side, TradeResult, win, loss, breakeven, CloseReason, tp2, tp_trail,
  force_close, manual,
}
use binance_futures.Execution.World.{Config, Exchange, World, find_position, cancel_known}
use binance_futures.Execution.Store.{find_position-drop_position}
use binance_futures.Execution.Close.{
  OrderTradeUpdate, counts_as_loss, calc_final_pnl, compute_avg_close_price, round_pnl, short_pnl,
  persist_close, handle_tp2_fill, handle_trailing_sl_fill, handle_hard_sl_fill, record_manual_close,
  confirm_force_close, stop_outcome, forced_result, roi_pct,
}

module _ {F : Type 0} where
  -- `w'` is `w` with the position `p` closed: it is gone from the cache and the others are not; its
  -- trade, if it has one, has this result, reason and profit recorded; a loss is counted.
  pub record Closes (p : Position F) (result : TradeResult) (reason : CloseReason) (pnl : F)
      (w w' : World F) : Type 0 where
    pub gone :
        (s : String)
        → find_position s w'.active ≡ (if str_eq s p.symbol then none else find_position s w.active)
    pub unrecorded : p.trade_id ≡ 0 → w'.results ≡ w.results
    pub recorded :
        p.trade_id ≢ 0
        → (exit : ExitInfo F) × (w'.results ≡ (p.trade_id, exit) ∷ w.results)
          × (exit.result ≡ result)
          × (exit.close_reason ≡ reason)
          × (exit.pnl ≡ pnl)
    pub losses : w'.daily_losses ≡ w.daily_losses + (if counts_as_loss result then 1 else 0)

  cancel_known-stores :
      (x : Exchange F) (s id : String) (w : World F)
      → let w' = cancel_known x s id w in
        (w'.active ≡ w.active) × (w'.results ≡ w.results) × (w'.daily_losses ≡ w.daily_losses)
  cancel_known-stores x s id w = ground arith

module _ {F : Type 0} ⦃f : Float64 F⦄ where
  open f use {lit, add, sub, mul, div, round, eq, le, lt}

  persist_close-Closes :
      (now : ℕ) (p : Position F) (avg gross : F) (result : TradeResult) (reason : CloseReason)
      (w : World F)
      → Closes p result reason
          (calc_final_pnl gross p)
          w
          (persist_close now p avg gross result reason w)
  unfolding persist_close
  persist_close-Closes now p avg gross result reason w = record {
    gone = λ s. ground (arith, find_position-drop_position s p.symbol w.active);
    unrecorded = λ h. ground arith;
    recorded = λ h. (
      record {
        avg_close_price = avg;
        pnl = calc_final_pnl gross p;
        roi_pct = roi_pct p (calc_final_pnl gross p);
        result = result;
        close_reason = reason;
        closed_at = now;
        funding_fee_paid = p.funding_fee_paid;
      },
      ground arith,
      refl,
      refl,
      refl,
    );
    losses = ground arith;
  }

  SameStores : World F → World F → Type 0
  SameStores w v =
      (v.active ≡ w.active) × (v.results ≡ w.results) × (v.daily_losses ≡ w.daily_losses)

  Closes-after :
      {p : Position F} {result : TradeResult} {reason : CloseReason} {pnl : F} {w v w' : World F}
      → SameStores w v
      → Closes p result reason pnl v w'
      → Closes p result reason pnl w w'
  unfolding SameStores
  Closes-after (a, r, l) h = record {
    gone = rw a at h.gone;
    unrecorded = rw r at h.unrecorded;
    recorded = rw r at h.recorded;
    losses = rw l at h.losses;
  }

  module _ (c : Config F) (x : Exchange F) (now : ℕ) (p : Position F) (o : OrderTradeUpdate F)
      (w : World F) where
    -- A fill of TP2 closes the position as a win, for the profit at the average close price less the
    -- funding fee, and counts no loss.
    pub handle_tp2_fill-Closes :
        Closes p win tp2
          (calc_final_pnl (round_pnl (short_pnl p (compute_avg_close_price c p o.avg_price))) p)
          w
          (handle_tp2_fill c x now p o w)
    unfolding handle_tp2_fill SameStores
    handle_tp2_fill-Closes =
        Closes-after (cancel_known-stores x p.symbol p.trailing_sl_order_id w)
          (persist_close-Closes now p _ _ win tp2 _)

    -- The price of the fill, or after a fill of the first take-profit the average of both by their
    -- parts of the original quantity.
    abbrev pub average_price : F
    average_price =
        let tp1_qty = div (mul p.original_qty c.tp1_size_pct) hundred in
        if p.tp1_filled && not (eq p.original_qty nought)
        then div (add (mul p.tp1_fill_price tp1_qty) (mul o.avg_price (sub p.original_qty tp1_qty)))
            p.original_qty
        else o.avg_price

    -- The profit of a short at that price, rounded to eight digits, and the fee paid for funding.
    abbrev pub gross : F
    gross =
        let units = lit (pos 100_000_000) 0 in
        div (round (mul (mul (sub p.entry_price average_price) p.original_qty) units)) units

    abbrev pub fee : F
    fee = if p.funding_fee_paid then p.funding_fee_paid_amount else nought

    average_price_lem : compute_avg_close_price c p o.avg_price ≡ average_price
    unfolding compute_avg_close_price
    average_price_lem = ground arith

    once_lem :
        calc_final_pnl (round_pnl (short_pnl p (compute_avg_close_price c p o.avg_price))) p
        ≡ sub gross fee
    unfolding calc_final_pnl
    once_lem = rw average_price_lem refl

    twice_lem : calc_final_pnl (sub gross fee) p ≡ sub (sub gross fee) fee
    unfolding calc_final_pnl
    twice_lem = refl

    trailing-Closes :
        let once =
          calc_final_pnl (round_pnl (short_pnl p (compute_avg_close_price c p o.avg_price))) p in
        Closes p
          (if le once nought then breakeven else win)
          tp_trail
          (calc_final_pnl once p)
          w
          (handle_trailing_sl_fill c x now p o w)
    unfolding handle_trailing_sl_fill SameStores
    trailing-Closes =
        let once =
          calc_final_pnl (round_pnl (short_pnl p (compute_avg_close_price c p o.avg_price))) p in
        Closes-after (cancel_known-stores x p.symbol p.tp2_order_id w) (
          persist_close-Closes now p (compute_avg_close_price c p o.avg_price) once
            (if le once nought then breakeven else win) tp_trail
            (cancel_known x p.symbol p.tp2_order_id w))

    -- A fill of the breakeven stop closes the position as a win or, without profit after the funding
    -- fee, as breakeven; it never counts a loss. The profit recorded is the rounded profit of a short
    -- at the average close price less the funding fee twice.
    pub handle_trailing_sl_fill-Closes :
        Closes p
          (if le (sub gross fee) nought then breakeven else win)
          tp_trail
          (sub (sub gross fee) fee)
          w
          (handle_trailing_sl_fill c x now p o w)
        × ((handle_trailing_sl_fill c x now p o w).daily_losses ≡ w.daily_losses)
    handle_trailing_sl_fill-Closes =
        let h = rw (once_lem, twice_lem) at trailing-Closes in (h, ground (arith, h.losses))

    -- The profit before the funding fee when the stop fills.
    abbrev pub stop_pnl : F
    stop_pnl = round_pnl (elim p.side [
      | Side.buy ↦ mul (sub o.avg_price p.entry_price) p.original_qty
      | Side.sell ↦ short_pnl p o.avg_price
    ])

    hard_sl-Closes :
        Closes p
          (stop_outcome c x p stop_pnl).0
          (stop_outcome c x p stop_pnl).1
          (calc_final_pnl stop_pnl p)
          w
          (handle_hard_sl_fill c x now p o w)
    unfolding handle_hard_sl_fill SameStores
    hard_sl-Closes =
        let w' = cancel_known x p.symbol p.tp_order_id w in
        Closes-after {v = w'} (cancel_known-stores x p.symbol p.tp_order_id w) (
          Closes-after (cancel_known-stores x p.symbol p.tp2_order_id w')
            (persist_close-Closes now p _ stop_pnl _ _ (cancel_known x p.symbol p.tp2_order_id w')))

    -- A fill of the stop closes the position, at the profit of a short or of a long; it counts a
    -- loss exactly if the stop had not been moved to breakeven.
    pub handle_hard_sl_fill-Closes :
        let pnl = stop_pnl in
        let w' = handle_hard_sl_fill c x now p o w in
        Closes p (stop_outcome c x p pnl).0 (stop_outcome c x p pnl).1 (calc_final_pnl pnl p) w w'
        × (w'.daily_losses ≡ w.daily_losses + (if p.breakeven_moved then 0 else 1))
    handle_hard_sl_fill-Closes = let h = hard_sl-Closes in (h, ground (arith, h.losses))

    -- A manual close counts a loss unless there is a profit after the funding fee.
    pub record_manual_close-Closes :
        let pnl = short_pnl p (compute_avg_close_price c p o.avg_price) in
        Closes p
          (if lt nought (calc_final_pnl pnl p) then win else loss)
          manual
          (calc_final_pnl (round_pnl pnl) p)
          w
          (record_manual_close c x now p o.avg_price w)
    unfolding record_manual_close
    record_manual_close-Closes = persist_close-Closes now p _ _ _ manual w

    -- The confirmation of a forced close closes the position with the result for the profit after the
    -- funding fee: a win once TP1 has filled, a partial win or breakeven, or else a loss.
    pub confirm_force_close-Closes :
        let pnl = round_pnl (short_pnl p (compute_avg_close_price c p o.avg_price)) in
        Closes p
          (forced_result c x p (calc_final_pnl pnl p))
          force_close
          (calc_final_pnl pnl p)
          w
          (confirm_force_close c x now p o w)
    unfolding confirm_force_close
    confirm_force_close-Closes = persist_close-Closes now p _ _ _ force_close w
