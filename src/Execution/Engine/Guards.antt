-- ===== src/Execution/Engine/Guards.antt =====
-- When `execute` sends an order.
use text.Mathlib.Text.{◌==◌ as str_eq}
use binance_futures.Base.{◌≤◌, ◌≡◌, ◌≢◌, false, none, some, any, length, arith}
use binance_futures.Float64.{Float64}
use binance_futures.Domain.{Balance}
use binance_futures.Execution.World.{Config, Exchange, World}
use binance_futures.Execution.Engine.{
  Order, placed, execute, fund_entry, place_entry, read_balance, margin,
}

module _ {F : Type 0} ⦃f : Float64 F⦄ (c : Config F) (x : Exchange F) (o : Order F) where
  open f use {lt}

  -- An entry is placed only with the kill switch off, no position in the symbol, at most the maximum
  -- of positions and of losses, and a known balance whose available part is not below the margin.
  pub execute_placed :
      (w : World F)
      → (execute c x o w).0 ≡ placed
      → (w.kill_switch ≡ false)
        × (length w.active ≤ c.max_positions)
        × (any (λ p. str_eq p.symbol o.scored.candidate.symbol) w.active ≡ false)
        × (w.daily_losses ≤ c.max_daily_losses)
        × ((read_balance c x w).0 ≢ none)
        × ((b : Balance F)
            → (read_balance c x w).0 ≡ some b
            → lt b.available_balance (margin c x b o.scored) ≡ false)
  unfolding execute fund_entry place_entry
  execute_placed w h = (
    ground (arith, h),
    ground (arith, h),
    ground (arith, h),
    ground (arith, h),
    λ n. ground (arith, h, n),
    λ b e. ground (arith, h, e),
  )
