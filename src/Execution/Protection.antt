-- ===== src/Execution/Protection.antt =====
-- internal/execution/position_manager.go: `forceClose`, `retryProtection` and `isUnprotectedStub`.
-- The client id of a forced close is made from a fresh UUID and is an argument here.
pub mod Retries
pub mod Sweep
use Prim.Native.String.{String}
use text.Mathlib.Text.{◌==◌ as str_eq}
use binance_futures.Base.{
  ℕ, suc, ◌+◌, Bool, true, false, not, ◌&&◌, ◌||◌, Option, none, some, List, [], ◌∷◌, keep, ltb,
  leb, ◌==◌, if◌then◌else◌,
}
use binance_futures.Base.Int.{pos}
use binance_futures.Float64.{Float64, nought}
use binance_futures.Domain.{Position, PendingProtection, OrderRequest, OrderResult, OrderType, Side}
use binance_futures.Execution.World.{
  Config, Exchange, World, Call, place_market, place_order, cancel_known, set_active_position,
  set_pending_protection, remove_pending_protection,
}
use binance_futures.Execution.Entry.{stop_market_request, take_profit_request, below}

-- In nanoseconds.
abbrev pub protection_retry_interval : ℕ
protection_retry_interval = 5_000_000_000

abbrev pub max_protection_retries : ℕ
max_protection_retries = 5

-- `LastAttempt` is the zero time before the first attempt.
abbrev pub too_soon : ℕ → Option ℕ → Bool
too_soon now none = false
too_soon now (some last) = ltb now (last + protection_retry_interval)

-- `err != nil` of an order.
abbrev pub refused {ℓ} : {A : Type ℓ} → Option A → Bool
refused none = true
refused (some _) = false

module _ {F : Type 0} where
  -- The code compares `TradeID` with `uuid.Nil`, which is 0 here.
  unfoldable pub is_unprotected_stub : Position F → ℕ → ℕ → Bool
  is_unprotected_stub p grace now =
      if not (str_eq p.sl_order_id "") || not (str_eq p.tp_order_id "")
      then false
      else if p.trade_id == 0
      then false
      else leb (p.opened_at + grace) now

module _ {F : Type 0} ⦃f : Float64 F⦄ where
  open f use {sub}

  abbrev pub close_request : Position F → String → Call F
  close_request p client_id = place_market (record {
    symbol = p.symbol;
    side = Side.buy;
    type = OrderType.market;
    quantity = p.quantity;
    price = nought;
    trigger_price = nought;
    reduce_only = true;
    close_position = false;
    new_client_order_id = client_id;
  })

  module _ (c : Config F) (x : Exchange F) where
    abbrev pub cancel_all_orders : Position F → World F → World F
    cancel_all_orders p w = cancel_known x p.symbol p.tp2_order_id (
        cancel_known x p.symbol p.trailing_sl_order_id (
          cancel_known x p.symbol p.trailing_order_id
            (cancel_known x p.symbol p.tp_order_id (cancel_known x p.symbol p.sl_order_id w))))

    -- `pendingForceClose.Delete`.
    abbrev pub forget_force_close : String → World F → World F
    forget_force_close symbol w = record w {
      force_closes = keep (λ e. not (str_eq e.0 symbol)) w.force_closes;
    }

    -- `pendingForceClose.Store`.
    abbrev pub note_force_close : String → String → World F → World F
    note_force_close symbol client_id w = record w {
      force_closes = (symbol, client_id) ∷ (forget_force_close symbol w).force_closes;
    }

    unfoldable pub force_close : Position F → String → World F → World F
    force_close p client_id w =
        let (order, w') =
          place_order x (close_request p client_id) (note_force_close p.symbol client_id w) in
        elim order [ none ↦ forget_force_close p.symbol w' | some _ ↦ cancel_all_orders p w' ]

    -- What one attempt works on: the record, the caller's copy of the position, and the stores.
    pub record Attempt : Type 0 where
      pub missing : PendingProtection F
      pub position : Position F
      pub world : World F

    unfoldable pub retry_sl : Attempt → Attempt
    retry_sl a =
        if not a.missing.needs_sl
        then a
        else let (order, w) =
            place_order x (stop_market_request a.position.symbol a.missing.stop_loss) a.world in
          elim order [
            | none ↦ record a { world = w }
            | some o ↦
                let p = record a.position {
                  sl_order_id = o.client_order_id;
                  stop_loss = a.missing.stop_loss;
                } in
                record {
                  missing = record a.missing { needs_sl = false };
                  position = p;
                  world = set_active_position p w;
                }
          ]

    -- The position with TP1, and with TP2 if it was accepted.
    abbrev pub with_profits :
        PendingProtection F → OrderResult F → Option (OrderResult F) → F → Position F → Position F
    with_profits pp tp none price p = record p {
      tp_order_id = tp.client_order_id;
      take_profit = pp.take_profit;
    }
    with_profits pp tp (some tp2) price p = record p {
      tp_order_id = tp.client_order_id;
      take_profit = pp.take_profit;
      tp2_order_id = tp2.client_order_id;
      tp2_price = price;
    }

    unfoldable pub retry_tp : Attempt → Attempt
    retry_tp a =
        if not a.missing.needs_tp
        then a
        else let pp = a.missing in
          let (order, w) =
            place_order x (take_profit_request a.position.symbol pp.tp1_qty pp.take_profit)
              a.world in
          elim order [
            | none ↦ record a { world = w }
            | some o ↦
                let price = below pp.entry_price c.tp2_pct in
                let (order2, w') =
                  place_order x (take_profit_request pp.symbol (sub pp.quantity pp.tp1_qty) price)
                    w in
                let p = with_profits pp o order2 price a.position in
                record {
                  missing = record pp { needs_tp = false };
                  position = p;
                  world = set_active_position p w';
                }
          ]

    unfoldable pub finish_attempt : ℕ → Attempt → World F
    finish_attempt now a =
        if not a.missing.needs_sl && not a.missing.needs_tp
        then remove_pending_protection a.position.symbol a.world
        else set_pending_protection
            (record a.missing { retries = suc a.missing.retries; last_attempt = some now }) a.world

    unfoldable pub retry_protection :
        ℕ → String → Position F → PendingProtection F → World F → World F
    unfolding force_close retry_sl retry_tp finish_attempt
    retry_protection now client_id p pp w =
        if too_soon now pp.last_attempt
        then w
        else if leb max_protection_retries pp.retries
        then remove_pending_protection p.symbol (force_close p client_id w)
        else finish_attempt now
            (retry_tp (retry_sl (record { missing = pp; position = p; world = w })))
