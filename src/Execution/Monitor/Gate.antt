-- ===== src/Execution/Monitor/Gate.antt =====
-- When the language model is asked about a losing position.
use binance_futures.Base.{
  inl, inr, ℕ, ◌+◌, ◌*◌, ◌≤◌, ◌≡◌, ◌↔◌, true, false, some, arith, Option-cases,
}
use binance_futures.Float64.{Float64}
use binance_futures.Domain.{Position}
use binance_futures.Scheduler.{minute}
use binance_futures.Execution.World.{Config, Exchange}
use binance_futures.Execution.Monitor.{force_sl_interval, should_check_force_sl}

module _ {F : Type 0} ⦃f : Float64 F⦄ (c : Config F) (x : Exchange F) (now : ℕ) where
  open f use {le}

  -- A position is checked exactly when it has been open for the configured minutes, its profit is
  -- below the gate, and the last check, if there was one, is as long ago as the interval for how
  -- severe the loss is.
  pub should_check_force_sl_iff :
      (p : Position F) (raw : F)
      → (should_check_force_sl c x now p raw ≡ true) ↔ (
          (p.opened_at + c.force_sl_start_min * minute ≤ now)
          × (le c.force_sl_pnl_gate_pct raw ≡ false)
          × ((t : ℕ) → p.last_force_sl_check ≡ some t → t + force_sl_interval c x now raw ≤ now))
  unfolding should_check_force_sl
  should_check_force_sl_iff p raw = elim (Option-cases p.last_force_sl_check) [
    | inl e ↦ (
      λ h. (ground (arith, h), ground (arith, h), λ t k. ground (arith, e, k)),
      λ (a, b, d). ground (arith, a, b, e),
    )
    | inr (t, e) ↦ (
      λ h. (ground (arith, h), ground (arith, h), λ u k. ground (arith, h, e, k)),
      λ (a, b, d). ground (arith, a, b, e, d t e),
    )
  ]
