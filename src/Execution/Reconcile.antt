-- ===== src/Execution/Reconcile.antt =====
-- internal/execution/reconciler.go: at startup, the positions of the exchange and of the cache are
-- brought together. `id_text` is the decimal text of an order's number; an iteration over a map is a list.
pub mod Replacing
pub mod Startup
pub mod Rehydrating
use Prim.Native.String.{String}
use text.Mathlib.Text.{◌==◌ as str_eq}
use binance_futures.Base.{
  ℕ, Bool, true, false, not, ◌&&◌, ◌||◌, Option, none, some, List, [], ◌∷◌, keep, ◌==◌,
  if◌then◌else◌,
}
use binance_futures.Base.Int.{pos, negsuc}
use binance_futures.Float64.{Float64, nought, hundred}
use binance_futures.Domain.{
  EntryMode, ExitInfo, OrderResult, Position, Side, Trade, TradeResult, CloseReason,
}
use binance_futures.Execution.World.{
  Config, Exchange, Mode, World, cancel, find_position, insert_trade, place_order, remove_position,
  set_active_position, update_result,
}
use binance_futures.Execution.Entry.{is_paper_mode, stop_market_request, take_profit_request}

-- `OpenOrderResponse` of internal/exchange/types.go.
pub record OpenOrder (F : Type 0) : Type 0 where
  pub symbol : String
  pub order_id : ℕ
  pub side : String
  pub type : String
  pub stop_price : F
  pub price : F
  pub orig_qty : F
  pub status : String
  pub reduce_only : Bool
  pub client_order_id : String

-- `PositionRiskResponse`.
pub record PositionRisk (F : Type 0) : Type 0 where
  pub symbol : String
  pub position_amt : F
  pub entry_price : F
  pub unrealized_profit : F
  pub mark_price : F

module _ {F : Type 0} where
  -- The orders that `ordersBySymbol[symbol]` has.
  abbrev pub orders_of : String → List (OpenOrder F) → List (OpenOrder F)
  orders_of symbol orders = keep (λ o. str_eq o.symbol symbol) orders

  abbrev pub risk_of : String → List (PositionRisk F) → Option (PositionRisk F)
  risk_of symbol [] = none
  risk_of symbol (p ∷ ps) = if str_eq p.symbol symbol then some p else risk_of symbol ps

  module _ (id_text : ℕ → String) where
    -- `liveByID[id]`: a later order takes the place of an earlier one.
    abbrev pub live_by_id : String → List (OpenOrder F) → Option (OpenOrder F)
    live_by_id id [] = none
    live_by_id id (o ∷ orders) = elim (live_by_id id orders) [
      | some later ↦ some later
      | none ↦ if str_eq (id_text o.order_id) id then some o else none
    ]

    abbrev pub is_live : String → List (OpenOrder F) → Bool
    is_live id orders = elim (live_by_id id orders) [ none ↦ false | some _ ↦ true ]

    abbrev pub cancel_stale : Exchange F → String → String → List (OpenOrder F) → World F → World F
    cancel_stale x symbol id orders w =
        if not (str_eq id "") && is_live id orders then (cancel x symbol id w).1 else w

module _ {F : Type 0} ⦃f : Float64 F⦄ where
  -- `cleanupStalePosition`.
  abbrev pub cleanup_stale_position : ℕ → Position F → World F → World F
  cleanup_stale_position now p w =
      let w' = remove_position p.symbol w in
      if p.trade_id == 0
      then w'
      else update_result p.trade_id
          (record {
            avg_close_price = p.entry_price;
            pnl = nought;
            roi_pct = nought;
            result = TradeResult.by_hand;
            close_reason = CloseReason.manual;
            closed_at = now;
            funding_fee_paid = false;
          })
          w'

module _ {F : Type 0} ⦃f : Float64 F⦄ (id_text : ℕ → String) where
  open f use {lit, add, sub, mul, div, neg, abs, lt, le, eq}

  abbrev pub drifted : F → F → Bool
  drifted live cached =
      lt nought cached && lt nought live && lt (lit (pos 1) 3) (div (abs (sub live cached)) cached)

  -- One of the two tests of `verifyProtection`.
  abbrev pub needs_order : String → F → List (OpenOrder F) → Bool
  needs_order id price orders =
      if str_eq id ""
      then true
      else elim (live_by_id id_text id orders) [ none ↦ true | some o ↦ drifted o.stop_price price ]

  unfoldable pub verify_protection : Position F → List (OpenOrder F) → Bool × Bool
  verify_protection p orders =
      (needs_order p.sl_order_id p.stop_loss orders, needs_order p.tp_order_id p.take_profit orders)

  module _ (x : Exchange F) where
    -- The new take-profit, for the whole original quantity; then the position is stored.
    abbrev pub send_profit : Position F → World F → World F
    send_profit p w =
        let (order, w') =
          place_order x (take_profit_request p.symbol p.original_qty p.take_profit) w in
        elim order [
          | none ↦ w'
          | some o ↦ set_active_position (record p { tp_order_id = o.client_order_id }) w'
        ]

    -- From the stop on; the test is `needsTP`.
    abbrev pub replace_profit : Bool → List (OpenOrder F) → Position F → World F → World F
    replace_profit false orders p w = set_active_position p w
    replace_profit true orders p w =
        send_profit p (cancel_stale id_text x p.symbol p.tp_order_id orders w)

    abbrev pub send_stop : Bool → List (OpenOrder F) → Position F → World F → World F
    send_stop needs_tp orders p w =
        let (order, w') = place_order x (stop_market_request p.symbol p.stop_loss) w in
        elim order [
          | none ↦ w'
          | some o ↦
              replace_profit needs_tp orders (record p { sl_order_id = o.client_order_id }) w'
        ]

    -- `replaceMissingOrders`; a refused order ends it, and nothing is stored.
    unfoldable pub replace_missing_orders :
        Bool → Bool → List (OpenOrder F) → Position F → World F → World F
    replace_missing_orders false needs_tp orders p w = replace_profit needs_tp orders p w
    replace_missing_orders true needs_tp orders p w =
        send_stop needs_tp orders p (cancel_stale id_text x p.symbol p.sl_order_id orders w)

    -- The case of a position that both sides have.
    unfoldable pub verify_and_replace : List (OpenOrder F) → Position F → World F → World F
    unfolding verify_protection replace_missing_orders
    verify_and_replace orders p w =
        let (needs_sl, needs_tp) = verify_protection p orders in
        if needs_sl || needs_tp then replace_missing_orders needs_sl needs_tp orders p w else w
