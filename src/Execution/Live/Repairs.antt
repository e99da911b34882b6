-- ===== src/Execution/Live/Repairs.antt =====
-- The live executor under the sweep.
use text.Mathlib.TextEquality.{eq_iff}
use binance_futures.Base.{◌≡◌, refl, inl, inr, arith, true, some, none}
use binance_futures.Float64.{Float64, nought}
use binance_futures.Domain.{Position}
use binance_futures.Execution.Live.{LiveClient, live_executor}
use binance_futures.Execution.Protection.Sweep.{emergency_protect}
use binance_futures.Execution.Protection.Sweep.Repairs.{emergency_protect_outcomes}
use binance_futures.Execution.Reconcile.{PositionRisk}
use binance_futures.Execution.World.{Config, World, find_position}

module _ {F : Type 0} ⦃f : Float64 F⦄ (c : Config F) (x : LiveClient F) (p : Position F)
    (w : World F) where
  -- In live mode, a position of which the exchange holds nothing is dropped from the cache by the
  -- emergency protection.
  pub emergency_protect_live :
      (r : PositionRisk F)
      → x.position_risk w.calls p.symbol ≡ some (some r)
      → f.eq r.position_amt nought ≡ true
      → find_position p.symbol (emergency_protect c (live_executor x) p w).active ≡ none
  unfolding live_executor
  emergency_protect_live r h z = elim (emergency_protect_outcomes c (live_executor x) p w) [
    | inl (_, gone) ↦ ground (arith, gone.gone p.symbol, eq_iff p.symbol p.symbol)
    | inr (n, _) ↦ absurd (n (rw (h, z) refl))
  ]
