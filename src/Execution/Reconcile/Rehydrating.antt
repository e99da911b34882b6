-- ===== src/Execution/Reconcile/Rehydrating.antt =====
-- What `rehydratePosition` does for a position of which only the take-profit is live.
use Prim.Native.String.{String}
use text.Mathlib.TextEquality.{eq_iff}
use text.Mathlib.Text.{◌==◌ as str_eq}
use binance_futures.Base.{ℕ, ◌≡◌, ◌≢◌, refl, true, false, [], ◌∷◌, arith}
use binance_futures.Float64.{Float64, nought, hundred}
use binance_futures.Execution.World.{Config, Exchange, World}
use binance_futures.Execution.Entry.{take_profit_request}
use binance_futures.Execution.Reconcile.{OpenOrder, PositionRisk}
use binance_futures.Execution.Reconcile.Startup.{rehydrate_position}

module _ {F : Type 0} ⦃f : Float64 F⦄ (id_text : ℕ → String) (x : Exchange F) (c : Config F) where
  open f use {sub, mul, div, neg, le}

  -- A short of which only the limit order of the take-profit is live is stored with that order as its
  -- stop: a second take-profit is sent and no stop.
  pub rehydrate_position_unstopped :
      (now : ℕ) (trade_id : String → ℕ) (r : PositionRisk F) (o : OpenOrder F) (w : World F)
      → o.reduce_only ≡ true
      → o.side ≡ "BUY"
      → o.type ≡ "LIMIT"
      → o.client_order_id ≢ ""
      → le (neg r.position_amt) nought ≡ false
      → (rehydrate_position id_text x c now trade_id r (o ∷ []) w).calls
        ≡ take_profit_request r.symbol
            (mul (neg r.position_amt) (div c.tp1_size_pct hundred))
            (sub r.entry_price (mul r.entry_price (div c.tp_pct hundred)))
          ∷ w.calls
  unfolding rehydrate_position
  rehydrate_position_unstopped now trade_id r o w a b d e short =
      let known : str_eq o.client_order_id "" ≡ false =
        ground (arith, eq_iff o.client_order_id "", e) in
      rw (a, b, d, known, short) refl
