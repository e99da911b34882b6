-- ===== src/Execution/Protection/Sweep.antt =====
-- internal/execution/position_manager.go: `emergencyProtect`, `repairUnprotectedPosition` and
-- `sweepUnprotectedPositions`.
pub mod Repairs
use Prim.Native.String.{String}
use text.Mathlib.Text.{◌==◌ as str_eq}
use binance_futures.Base.{
  ℕ, ◌*◌, Bool, true, false, not, ◌||◌, Option, none, some, List, [], ◌∷◌, if◌then◌else◌,
}
use binance_futures.Base.Int.{pos}
use binance_futures.Float64.{Float64, nought, hundred}
use binance_futures.Domain.{Position, PendingProtection, OrderResult, Trade}
use binance_futures.Scheduler.{second}
use binance_futures.Execution.World.{
  Config, Exchange, World, Call, get_position, PositionReply, unreachable, absent, found,
  place_order, get_active_position, set_active_position, remove_position, set_pending_protection,
  get_pending_entry, insert_trade,
}
use binance_futures.Execution.Entry.{stop_market_request, take_profit_request, finalize_sltp}
use binance_futures.Execution.Protection.{refused, is_unprotected_stub}

module _ {F : Type 0} ⦃f : Float64 F⦄ where
  open f use {add, sub, mul, div, lt, eq}

  abbrev pub id_or : String → Option (OrderResult F) → String
  id_or id none = id
  id_or id (some o) = o.client_order_id

  module _ (c : Config F) (x : Exchange F) where
    -- The entry price and the quantity that the position is protected for.
    pub record Confirmed : Type 0 where
      pub entry_price : F
      pub qty : F

    abbrev pub cached_qty : Position F → F
    cached_qty p = if eq p.original_qty nought then p.quantity else p.original_qty

    abbrev pub confirmed : Position F → PositionReply F → Confirmed
    confirmed p (found live) = record {
      entry_price = if lt nought live.entry_price then live.entry_price else p.entry_price;
      qty = if lt nought live.quantity then live.quantity else cached_qty p;
    }
    confirmed p _ = record { entry_price = p.entry_price; qty = cached_qty p }

    abbrev pub emergency_stop : Confirmed → F
    emergency_stop k = add k.entry_price (mul k.entry_price (div c.sl_pct hundred))

    abbrev pub emergency_profit : Confirmed → F
    emergency_profit k = sub k.entry_price (mul k.entry_price (div c.tp_pct hundred))

    abbrev pub missing_of : Position F → Confirmed → Bool → Bool → PendingProtection F
    missing_of p k no_sl no_tp = record {
      symbol = p.symbol;
      needs_sl = no_sl;
      needs_tp = no_tp;
      entry_price = k.entry_price;
      quantity = k.qty;
      tp1_qty = k.qty;
      stop_loss = emergency_stop k;
      take_profit = emergency_profit k;
      retries = 0;
      last_attempt = none;
    }

    abbrev pub protected_position :
        Position F → Confirmed → Option (OrderResult F) → Option (OrderResult F) → Position F
    protected_position p k sl tp = record p {
      entry_price = k.entry_price;
      quantity = k.qty;
      original_qty = k.qty;
      stop_loss = emergency_stop k;
      take_profit = emergency_profit k;
      high_since_entry = k.entry_price;
      low_since_entry = k.entry_price;
      sl_order_id = id_or p.sl_order_id sl;
      tp_order_id = id_or p.tp_order_id tp;
    }

    abbrev pub recovered_trade : Position F → Confirmed → Trade F
    recovered_trade p k = record {
      id = p.trade_id;
      symbol = p.symbol;
      side = p.side;
      entry_mode = p.entry_mode;
      leverage = p.leverage;
      confidence = pos 0;
      funding_rate = nought;
      change_24h = nought;
      entry_price = k.entry_price;
      quantity = k.qty;
      is_paper = p.is_paper;
      created_at = p.opened_at;
      llm_confidence = none;
      llm_entry_mode = none;
      llm_entry_reasons = [];
      llm_warnings = [];
    }

    -- From the placement of the orders on.
    unfoldable pub protect_confirmed : Position F → Confirmed → World F → World F
    protect_confirmed p k w =
        let (sl, w₁) = place_order x (stop_market_request p.symbol (emergency_stop k)) w in
        let (tp, w₂) = place_order x (take_profit_request p.symbol k.qty (emergency_profit k)) w₁ in
        let w₃ =
          if refused sl || refused tp
          then set_pending_protection (missing_of p k (refused sl) (refused tp)) w₂
          else w₂ in
        insert_trade (recovered_trade p k) (set_active_position (protected_position p k sl tp) w₃)

    abbrev pub after_reply : Position F → PositionReply F → World F → World F
    unfolding protect_confirmed
    after_reply p absent w = remove_position p.symbol w
    after_reply p reply w = protect_confirmed p (confirmed p reply) w

    unfoldable pub emergency_protect : Position F → World F → World F
    unfolding after_reply
    emergency_protect p w =
        after_reply p (x.position w.calls p.symbol)
          (record w { calls = get_position p.symbol ∷ w.calls })

    abbrev pub repair_stub : ℕ → Position F → World F → World F
    unfolding emergency_protect
    repair_stub now p w = elim (get_pending_entry x now (x.uuid_text p.trade_id) w) [
      | some pending ↦ finalize_sltp c x pending p.entry_price p.original_qty p.opened_at w
      | none ↦ emergency_protect p w
    ]

    -- `now` is one reading of the clock.
    unfoldable pub repair_unprotected_position : ℕ → String → World F → World F
    unfolding repair_stub
    repair_unprotected_position now symbol w = elim (get_active_position symbol w) [
      | none ↦ w
      | some p ↦
          if is_unprotected_stub p (c.grace_seconds * second) now then repair_stub now p w else w
    ]

    -- The `for` over the positions that were read at the start.
    abbrev pub sweep_positions : ℕ → List (Position F) → World F → World F
    unfolding repair_unprotected_position
    sweep_positions now [] w = w
    sweep_positions now (p ∷ ps) w = sweep_positions now ps (
        if is_unprotected_stub p (c.grace_seconds * second) now
        then repair_unprotected_position now p.symbol w
        else w)

    pub sweep_unprotected_positions : ℕ → World F → World F
    unfolding sweep_positions
    sweep_unprotected_positions now w = sweep_positions now w.active w
