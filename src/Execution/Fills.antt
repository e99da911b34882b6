-- ===== src/Execution/Fills.antt =====
-- internal/execution/position_manager.go: `handleTP1Fill`, `HandleUserDataEvent` and `checkPaperFills`.
-- The handlers change the position they are given a pointer to, so they return it.
pub mod Events
pub mod Paper
use Prim.Native.String.{String}
use text.Mathlib.Text.{◌==◌ as str_eq}
use binance_futures.Base.{
  ℕ, ◌*◌, Bool, true, false, not, ◌&&◌, Option, none, some, List, [], ◌∷◌, ltb, if◌then◌else◌,
}
use binance_futures.Base.Int.{pos}
use binance_futures.Float64.{Float64, nought, hundred}
use binance_futures.Domain.{Position, PendingEntry, OrderResult}
use binance_futures.Execution.World.{
  Config, Exchange, World, place_order, cancel_known, get_active_position, set_active_position,
  get_pending_entry,
}
use binance_futures.Execution.Close.{
  OrderTradeUpdate, handle_tp2_fill, handle_trailing_sl_fill, handle_hard_sl_fill,
  record_manual_close, confirm_force_close,
}
use binance_futures.Execution.Entry.{stop_market_request, finalize_sltp}
use binance_futures.Execution.Protection.{forget_force_close}

-- `pendingForceClose.Load`.
abbrev pub find_force_close : String → List (String × String) → Option String
find_force_close s [] = none
find_force_close s ((t, id) ∷ rest) = if str_eq t s then some id else find_force_close s rest

-- The stored id is that of the fill.
abbrev pub is_forced : String → Option String → Bool
is_forced id none = false
is_forced id (some stored) = str_eq stored id

module _ {F : Type 0} ⦃f : Float64 F⦄ where
  open f use {lit, sub, mul, div, lt, le, eq}

  module _ (c : Config F) (x : Exchange F) (now : ℕ) where
    -- The position when TP1 has filled and the stop for the whole of it is given up.
    abbrev pub after_tp1 : Position F → OrderTradeUpdate F → Position F
    after_tp1 p o = record p {
      tp1_filled = true;
      tp1_fill_price = o.avg_price;
      tp1_filled_at = some now;
      sl_order_id = "";
    }

    abbrev pub remaining_qty : Position F → OrderTradeUpdate F → F
    remaining_qty p o = sub p.original_qty (
        if eq o.filled_qty nought
        then div (mul p.original_qty c.tp1_size_pct) hundred
        else o.filled_qty)

    -- With the breakeven stop, if it was accepted.
    abbrev pub with_breakeven : Option (OrderResult F) → Position F → Position F
    with_breakeven none p = p
    with_breakeven (some r) p = record p {
      trailing_sl_order_id = r.client_order_id;
      breakeven_moved = true;
    }

    -- From the breakeven stop on, with the position as it was and as it is.
    unfoldable pub protect_rest : Position F → OrderTradeUpdate F → World F → Position F × World F
    protect_rest p o w =
        let (order, w') = place_order x (stop_market_request p.symbol p.entry_price) w in
        let q = record (with_breakeven order (after_tp1 p o)) { quantity = remaining_qty p o } in
        (q, set_active_position q w')

    unfoldable pub handle_tp1_fill :
        Position F → OrderTradeUpdate F → World F → Position F × World F
    unfolding protect_rest
    handle_tp1_fill p o w =
        let w' = cancel_known x p.symbol p.sl_order_id w in
        if str_eq p.tp2_order_id ""
        then (after_tp1 p o, handle_tp2_fill c x now (after_tp1 p o) o w')
        else protect_rest p o w'

    -- The fill of an order that is none of the position's.
    abbrev pub handle_other_fill : Position F → OrderTradeUpdate F → World F → World F
    handle_other_fill p o w =
        if not o.reduce_only
        then w
        else if is_forced o.client_order_id (find_force_close o.symbol w.force_closes)
        then confirm_force_close c x now p o (forget_force_close c x o.symbol w)
        else record_manual_close c x now p o.avg_price w

    -- The `switch` on the order's id.
    unfoldable pub handle_fill : Position F → OrderTradeUpdate F → World F → World F
    unfolding handle_tp1_fill
    handle_fill p o w =
        if str_eq o.client_order_id p.tp_order_id
        then (if p.tp1_filled then w else (handle_tp1_fill p o w).1)
        else if str_eq o.client_order_id p.tp2_order_id
        then handle_tp2_fill c x now p o w
        else if str_eq o.client_order_id p.trailing_order_id
        then w
        else if str_eq o.client_order_id p.trailing_sl_order_id
        then handle_trailing_sl_fill c x now p o w
        else if str_eq o.client_order_id p.sl_order_id
        then handle_hard_sl_fill c x now p o w
        else handle_other_fill p o w

    -- The trade time is in milliseconds, and 0 if it is missing.
    abbrev pub entry_time : OrderTradeUpdate F → ℕ
    entry_time o = if ltb 0 o.trade_time then o.trade_time * 1_000_000 else now

    -- A market sell: an entry, if its id is that of a pending entry.
    unfoldable pub handle_entry_fill :
        Option (PendingEntry F) → OrderTradeUpdate F → World F → World F
    handle_entry_fill none o w = w
    handle_entry_fill (some pending) o w =
        if eq o.avg_price nought
        then w
        else finalize_sltp c x pending o.avg_price o.filled_qty (entry_time o) w

    abbrev pub handle_position_fill : Option (Position F) → OrderTradeUpdate F → World F → World F
    handle_position_fill none o w = w
    handle_position_fill (some p) o w = handle_fill p o w

    unfoldable pub handle_user_data_event : OrderTradeUpdate F → World F → World F
    unfolding handle_fill handle_entry_fill
    handle_user_data_event o w =
        if not (str_eq o.order_status "FILLED")
        then w
        else if o.is_market_sell
        then handle_entry_fill (get_pending_entry x now o.client_order_id w) o w
        else handle_position_fill (get_active_position o.symbol w) o w

    -- `tp1SizeFraction`.
    abbrev pub tp1_size_fraction : F
    tp1_size_fraction = lit (pos 7) 1

    abbrev pub fake_order : Position F → F → F → OrderTradeUpdate F
    fake_order p avg_price qty = record {
      symbol = p.symbol;
      client_order_id = "";
      order_status = "FILLED";
      is_market_sell = false;
      avg_price = avg_price;
      filled_qty = qty;
      reduce_only = true;
      trade_time = 0;
    }

    -- Whether the position was closed, the position, and the stores.
    unfoldable pub check_paper_fills : Position F → F → World F → Bool × Position F × World F
    unfolding handle_tp1_fill
    check_paper_fills p price w =
        let rest = sub p.original_qty (mul p.original_qty tp1_size_fraction) in
        if not p.tp1_filled
        then (if le p.stop_loss price
            then (true, p, handle_hard_sl_fill c x now p (fake_order p p.stop_loss p.quantity) w)
            else if le price p.take_profit
            then (let (q, w') =
                  handle_tp1_fill p
                    (fake_order p p.take_profit (mul p.original_qty tp1_size_fraction)) w in
                let r = record q { trailing_peak = q.take_profit } in
                (false, r, set_active_position r w'))
            else (false, p, w))
        else if le p.entry_price price
        then (true, p, handle_trailing_sl_fill c x now p (fake_order p p.entry_price rest) w)
        else if lt nought p.tp2_price && le price p.tp2_price
        then (true, p, handle_tp2_fill c x now p (fake_order p p.tp2_price rest) w)
        else (false, p, w)
