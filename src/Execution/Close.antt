-- ===== src/Execution/Close.antt =====
-- internal/execution/position_manager.go, the closing of a position: the fills of TP2, of the
-- breakeven stop, of the hard stop, of a forced and of a manual close, and `persistClose`.
-- Trade memories, the logs and the notifications are not part of the state.
use Prim.Native.String.{String}
use text.Mathlib.Text.{◌==◌ as str_eq}
pub mod Outcomes
use binance_futures.Base.{
  ℕ, ◌+◌, ◌-◌, ◌*◌, Bool, true, false, not, ◌&&◌, ◌||◌, Option, none, some, List, [], ◌∷◌, ltb, leb,
  ◌==◌, if◌then◌else◌,
}
use binance_futures.Base.Int.{ℤ, pos, negsuc}
use binance_futures.Float64.{Float64, nought, hundred}
use binance_futures.Domain.{
  Position, Side, TradeResult, win, loss, partial_win, force_sl, breakeven, CloseReason, tp2,
  tp_trail, hard_sl, breakeven_sl, force_close, manual,
}
use binance_futures.Scheduler.{minute, hour}
use binance_futures.Execution.World.{
  Config, Exchange, World, remove_position, incr_daily_loss_count, set_symbol_cooldown,
  update_result, cancel_known,
}

-- An `ORDER_TRADE_UPDATE` as the handlers read it.
pub record OrderTradeUpdate (F : Type 0) : Type 0 where
  pub symbol : String
  pub client_order_id : String
  pub order_status : String
  pub is_market_sell : Bool
  pub avg_price : F
  pub filled_qty : F
  pub reduce_only : Bool
  pub trade_time : ℕ

-- `result == "LOSS" || result == "FORCE_SL"`
abbrev pub counts_as_loss : TradeResult → Bool
counts_as_loss loss = true
counts_as_loss force_sl = true
counts_as_loss _ = false

module _ {F : Type 0} ⦃f : Float64 F⦄ where
  open f use {lit, of_int, add, sub, mul, div, round, lt, le, eq}

  unfoldable pub compute_avg_close_price : Config F → Position F → F → F
  compute_avg_close_price c p exit =
      if not p.tp1_filled || eq p.original_qty nought
      then exit
      else let tp1_qty = div (mul p.original_qty c.tp1_size_pct) hundred in
        let trail_qty = sub p.original_qty tp1_qty in
        div (add (mul p.tp1_fill_price tp1_qty) (mul exit trail_qty)) p.original_qty

  unfoldable pub calc_final_pnl : F → Position F → F
  calc_final_pnl pnl p = sub pnl (if p.funding_fee_paid then p.funding_fee_paid_amount else nought)

  -- `math.Round(pnl*1e8) / 1e8`
  abbrev pub round_pnl : F → F
  round_pnl pnl = let units = lit (pos 100_000_000) 0 in div (round (mul pnl units)) units

  -- The profit of a short from its entry to `price`, on the whole quantity.
  abbrev pub short_pnl : Position F → F → F
  short_pnl p price = mul (sub p.entry_price price) p.original_qty

  unfoldable pub roi_pct : Position F → F → F
  roi_pct p pnl = mul (mul (div pnl (mul p.entry_price p.original_qty)) (of_int p.leverage)) hundred

  -- `pnl` is before the funding fee, and `now` one reading of the clock.
  unfoldable pub persist_close :
      ℕ → Position F → F → F → TradeResult → CloseReason → World F → World F
  persist_close now p avg_close gross result reason w =
      let pnl = calc_final_pnl gross p in
      let recorded =
        if p.trade_id == 0
        then w
        else update_result p.trade_id
            (record {
              avg_close_price = avg_close;
              pnl = pnl;
              roi_pct = roi_pct p pnl;
              result = result;
              close_reason = reason;
              closed_at = now;
              funding_fee_paid = p.funding_fee_paid;
            })
            w in
      let removed = remove_position p.symbol recorded in
      let counted = if counts_as_loss result then incr_daily_loss_count removed else removed in
      if ltb (now - p.opened_at) (3 * hour)
      then set_symbol_cooldown p.symbol (20 * minute) counted
      else counted

  module _ (c : Config F) (x : Exchange F) where
    unfoldable pub handle_tp2_fill : ℕ → Position F → OrderTradeUpdate F → World F → World F
    handle_tp2_fill now p o w =
        let w' = cancel_known x p.symbol p.trailing_sl_order_id w in
        let avg_close = compute_avg_close_price c p o.avg_price in
        persist_close now p avg_close (round_pnl (short_pnl p avg_close)) win tp2 w'

    unfoldable pub handle_trailing_sl_fill : ℕ → Position F → OrderTradeUpdate F → World F → World F
    handle_trailing_sl_fill now p o w =
        let w' = cancel_known x p.symbol p.tp2_order_id w in
        let avg_close = compute_avg_close_price c p o.avg_price in
        let pnl = calc_final_pnl (round_pnl (short_pnl p avg_close)) p in
        let result = if le pnl nought then breakeven else win in
        persist_close now p avg_close pnl result tp_trail w'

    -- The result and the reason of a stop.
    abbrev pub stop_outcome : Position F → F → TradeResult × CloseReason
    stop_outcome p pnl =
        if p.breakeven_moved
        then (if lt nought pnl then partial_win else breakeven, breakeven_sl)
        else (loss, hard_sl)

    unfoldable pub handle_hard_sl_fill : ℕ → Position F → OrderTradeUpdate F → World F → World F
    handle_hard_sl_fill now p o w =
        let w' = cancel_known x p.symbol p.tp2_order_id (cancel_known x p.symbol p.tp_order_id w) in
        let raw : F = elim p.side [
          | Side.buy ↦ mul (sub o.avg_price p.entry_price) p.original_qty
          | Side.sell ↦ short_pnl p o.avg_price
        ] in
        let pnl = round_pnl raw in
        let (result, reason) = stop_outcome p pnl in
        persist_close now p o.avg_price pnl result reason w'

    unfoldable pub record_manual_close : ℕ → Position F → F → World F → World F
    record_manual_close now p exit w =
        let pnl = short_pnl p (compute_avg_close_price c p exit) in
        let result = if lt nought (calc_final_pnl pnl p) then win else loss in
        persist_close now p exit (round_pnl pnl) result manual w

    abbrev pub forced_result : Position F → F → TradeResult
    forced_result p final_pnl =
        if p.tp1_filled
        then win
        else if lt nought final_pnl
        then partial_win
        else if lt (lit (negsuc 14) 1) final_pnl
        then breakeven
        else loss

    -- The confirmation of a forced close in `HandleUserDataEvent`, after its id is forgotten.
    unfoldable pub confirm_force_close : ℕ → Position F → OrderTradeUpdate F → World F → World F
    confirm_force_close now p o w =
        let avg_close = compute_avg_close_price c p o.avg_price in
        let pnl = round_pnl (short_pnl p avg_close) in
        persist_close now p o.avg_price pnl (forced_result p (calc_final_pnl pnl p)) force_close w
