-- ===== src/Risk/Checks.antt =====
-- What a trade that passes the checks of internal/risk is known to satisfy.
use binance_futures.Base.{
  ℕ, ◌<◌, ◌≡◌, ◌↔◌, ◌≢◌, Option-cases, ◌⊎◌, inl, inr, true, false, Option, some, List, [], ◌∷◌, All,
  length, arith, Bool-cases,
}
use binance_futures.Float64.{Float64, nought, IsNumber, IsOrdered}
use binance_futures.Domain.{Position, ScoredCandidate, IndicatorSnapshot, BtcContext, Trend}
use binance_futures.Risk.{
  RiskConfig, CacheAnswers, passed, accepted, pre_check, evaluate_candidate, DrawdownTracker,
  update, track,
}

module _ {F : Type 0} where
  -- A trade passes exactly if the kill switch and the positions can be read, the switch is off,
  -- fewer than the maximum of positions are open, and the losses of the day cannot be read or are
  -- fewer than the maximum.
  pub pre_check_passes_iff :
      (c : RiskConfig F) (a : CacheAnswers F)
      → (pre_check c a ≡ passed) ↔ (
          (a.kill_switch ≡ some false)
          × ((ps : List (Position F)) × (a.active_positions ≡ some ps)
              × (length ps < c.max_positions))
          × ((n : ℕ) → a.daily_loss_count ≡ some n → n < c.max_daily_losses))
  unfolding pre_check
  pre_check_passes_iff c a = elim (Option-cases a.active_positions) [
    | inl e ↦ ((λ h. ground (arith, e)), λ h. ground (arith, e, h.0, h.1.1))
    | inr (ps, e) ↦ (
      (λ h. (ground (arith, e), (ps, e, ground (arith, e)), λ n i. ground (arith, e, i))),
      λ (k, (qs, e', l), d). elim (Option-cases a.daily_loss_count) [
        | inl m ↦ ground (arith, e, e', l, k, m)
        | inr (n, m) ↦ ground (arith, e, e', l, k, m, d n m)
      ],
    )
  ]

module _ {F : Type 0} ⦃f : Float64 F⦄ where
  open f use {lt, le}

  -- A candidate is accepted exactly if its score is not below the minimum, or a positive override
  -- admits it; its ATR ratio, if there are indicators, is not above the maximum; and no bullish
  -- breakout of BTC is seen where that rejects.
  pub evaluate_candidate_accepts_iff :
      (c : RiskConfig F) (sc : ScoredCandidate F) (btc : Option (BtcContext F))
      → (evaluate_candidate c sc btc ≡ accepted) ↔ (
          ((lt sc.composite_score c.min_composite_score ≡ false)
            ⊎ ((lt nought c.min_score_override ≡ true)
                × (le c.min_score_override sc.composite_score ≡ true)))
          × ((i : IndicatorSnapshot F)
              → sc.indicators ≡ some i
              → lt c.max_atr_ratio i.atr_ratio ≡ false)
          × ((b : BtcContext F)
              → btc ≡ some b
              → c.btc_breakout_reject ≡ true
              → b.is_breakout ≡ true
              → b.trend ≢ Trend.bullish))
  unfolding evaluate_candidate
  evaluate_candidate_accepts_iff c sc btc = (
    λ h. (ground (arith, h), λ i e. ground (arith, h, e), λ b e r k. ground (arith, h, e, r, k)),
    λ (low, atr, brk). elim (Option-cases sc.indicators) [
      | inl e ↦ elim (Option-cases btc) [
        | inl g ↦ ground (arith, low, e, g)
        | inr (b, g) ↦ ground (arith, low, e, g, brk b g)
      ]
      | inr (i, e) ↦ elim (Option-cases btc) [
        | inl g ↦ ground (arith, low, e, atr i e, g)
        | inr (b, g) ↦ ground (arith, low, e, atr i e, g, brk b g)
      ]
    ],
  )

  update-Peak :
      ⦃o : IsOrdered F⦄
      → (b : F) (d : DrawdownTracker F) → IsNumber d.peak_balance
      → IsNumber b
      → let peak = (update b d).peak_balance in
        IsNumber peak × (le d.peak_balance peak ≡ true) × (le b peak ≡ true)
  unfolding update
  update-Peak ⦃o = o⦄ b d n m = elim (Bool-cases (lt d.peak_balance b)) [
    | inl y ↦ rw y (m, o.lt_number _ _ y, m)
    | inr e ↦ rw e (n, n, ground (arith, e, o.lt_iff d.peak_balance b n m))
  ]

  -- After any sequence of balances, none of them a NaN, the peak is one than which neither the first
  -- nor any later balance is greater.
  pub track-Peak :
      ⦃o : IsOrdered F⦄
      → (bs : List F) (d : DrawdownTracker F) → IsNumber d.peak_balance
      → All IsNumber bs
      → let peak = (track bs d).peak_balance in
        IsNumber peak × (le d.peak_balance peak ≡ true) × All (λ b. le b peak ≡ true) bs
  unfolding update
  track-Peak ⦃o = o⦄ [] d n h = (n, n, tt)
  track-Peak ⦃o = o⦄ (b ∷ bs) d n (m, ms) =
      let (k, old, new) = update-Peak b d n m in
      let (p, q, r) = track-Peak bs (update b d) k ms in
      (p, o.le_trans _ _ _ old q, (o.le_trans _ _ _ new q, r))
