-- ===== src/Indicators/Divergence.antt =====
-- internal/indicator/rsi_divergence.go, with the values of `RSIDivConfig`. Candles stand oldest first.
use mathlib.Core.List.{reverse}
use binance_futures.Base.{
  ℕ, zero, suc, ◌+◌, ◌-◌, ◌*◌, ◌<◌, ◌≡◌, length-drop, refl, ap, Bool, false, not, ◌&&◌, ◌||◌,
  Option, none, some, List, [], ◌∷◌, length, take, drop, any, ltb, if◌then◌else◌, arith,
}
use binance_futures.Base.Int.{pos, negsuc}
use binance_futures.Float64.{Float64, nought, hundred}
use binance_futures.Domain.{Candle, PatternStrength, RsiDivergence, Timeframe}
use binance_futures.Indicators.Averages.{
  averaged, close_changes, count_of, faded, steps, strength_index, sum_changes,
}

abbrev pub lookback : ℕ
lookback = 80

abbrev pub min_swing_distance : ℕ
min_swing_distance = 3

abbrev pub max_bars_since_swing : ℕ
max_bars_since_swing = 15

abbrev pub rsi_peak_search_radius : ℕ
rsi_peak_search_radius = 3

abbrev pub rsi_period : ℕ
rsi_period = 14

abbrev pub nth {ℓ} : {A : Type ℓ} → ℕ → List A → Option A
nth n [] = none
nth zero (x ∷ xs) = some x
nth (suc n) (x ∷ xs) = nth n xs

abbrev pub last_element {ℓ} : {A : Type ℓ} → List A → Option A
last_element [] = none
last_element (x ∷ []) = some x
last_element (_ ∷ x ∷ xs) = last_element (x ∷ xs)

-- The bonus for an overbought peak.
abbrev pub raised : PatternStrength → PatternStrength
raised PatternStrength.weak = PatternStrength.medium
raised PatternStrength.medium = PatternStrength.strong
raised PatternStrength.strong = PatternStrength.strong

abbrev pub reported : Timeframe → Option PatternStrength → Option RsiDivergence
reported tf none = none
reported tf (some s) = some (record { timeframe = tf; strength = s })

-- The best divergence so far, and its score.
abbrev pub Best : Type 0 → Type 0
Best F = Option PatternStrength × F

module _ {F : Type 0} ⦃f : Float64 F⦄ where
  open f use {lit, add, sub, mul, div, neg, maximum, lt, le}

  abbrev pub next_averages : ℕ → F × F → F → F × F
  next_averages period (gain, loss) x = (
    div (add (faded period gain) (maximum x nought)) (count_of period),
    div (add (faded period loss) (maximum (neg x) nought)) (count_of period),
  )

  -- The RSI now and after each further change.
  abbrev pub series_from : ℕ → F × F → List F → List F
  series_from period avgs [] = strength_index avgs ∷ []
  series_from period avgs (x ∷ xs) =
      strength_index avgs ∷ series_from period (next_averages period avgs x) xs

  unfoldable pub compute_rsi_series : List (Candle F) → ℕ → List F
  compute_rsi_series candles period =
      if ltb (length candles) (period + 1)
      then []
      else series_from period
          (averaged period (sum_changes (nought, nought) (take period (close_changes candles))))
          (drop period (close_changes candles))

  -- No other candle is higher than `c`, and `c` stands out from those at both ends.
  abbrev pub stands_out : F → Candle F → Option (Candle F) → Option (Candle F) → Bool
  stands_out min_prominence c (some left) (some right) =
      let ref = maximum left.high right.high in
      not (le ref nought) && not (lt (mul (div (sub c.high ref) ref) hundred) min_prominence)
  stands_out min_prominence c _ _ = false

  abbrev pub is_swing : F → List (Candle F) → List (Candle F) → Bool
  is_swing min_prominence left [] = false
  is_swing min_prominence left (c ∷ right) =
      not (any (λ o. lt c.high o.high) left)
      && not (any (λ o. lt c.high o.high) right)
      && stands_out min_prominence c (nth 0 left) (last_element right)

  -- The swings from index `i` on, of the candles from `i - d` on.
  abbrev pub swings_from : ℕ → F → ℕ → List (Candle F) → List ℕ
  swings_from d min_prominence i [] = []
  swings_from d min_prominence i (c ∷ cs) =
      let rest = swings_from d min_prominence (suc i) cs in
      let around = take (2 * d + 1) (c ∷ cs) in
      if not (ltb (length (c ∷ cs)) (2 * d + 1))
        && is_swing min_prominence (take d around) (drop d around)
      then i ∷ rest
      else rest

  abbrev pub find_swing_highs : List (Candle F) → ℕ → F → List ℕ
  find_swing_highs candles d min_prominence = swings_from d min_prominence d candles

  abbrev pub peak_of : F → List F → F
  peak_of peak [] = peak
  peak_of peak (x ∷ xs) = peak_of (if lt peak x then x else peak) xs

  -- Around `center`, whose value is `x`.
  abbrev pub local_rsi_peak : List F → ℕ → ℕ → F → F
  local_rsi_peak rsi center radius x =
      let start : ℕ = center - radius in
      peak_of x (take (center + radius + 1 - start) (drop start rsi))

  abbrev pub diff_strength : F → F → Bool → PatternStrength
  diff_strength price_diff rsi_diff overbought =
      let wide = le (lit (pos 10) 1) price_diff in
      let deep = le (lit (pos 6) 0) rsi_diff in
      let strength =
        if wide && deep
        then PatternStrength.strong
        else if wide || deep
        then PatternStrength.medium
        else PatternStrength.weak in
      if overbought then raised strength else strength

  -- The body of the inner loop, of the highs and of the RSI peaks of `a` and `b`.
  abbrev pub consider : F → F → F → F → Best F → Best F
  consider price_a price_b rsi_a rsi_b (best, best_score) =
      let price_diff = mul (div (sub price_b price_a) price_a) hundred in
      let rsi_diff = sub rsi_a rsi_b in
      let score = add price_diff rsi_diff in
      let overbought = le (lit (pos 75) 0) rsi_a || le (lit (pos 75) 0) rsi_b in
      if le price_b price_a
        || le rsi_a rsi_b
        || lt (maximum rsi_a rsi_b) (lit (pos 50) 0)
        || le score best_score
      then (best, best_score)
      else (some (diff_strength price_diff rsi_diff overbought), score)

  -- What is read of a swing: its high and the RSI peak around it.
  abbrev pub peak_at : List F → ℕ → Option F
  peak_at rsi i = elim (nth i rsi) [
    | none ↦ none
    | some x ↦ some (local_rsi_peak rsi i rsi_peak_search_radius x)
  ]

  abbrev pub consider_swings :
      Option (Candle F) → Option (Candle F) → Option F → Option F → Best F → Best F
  consider_swings (some a) (some b) (some rsi_a) (some rsi_b) best =
      consider a.high b.high rsi_a rsi_b best
  consider_swings _ _ _ _ best = best

  -- `shift` is the window's start less the series' offset.
  module _ (window : List (Candle F)) (rsi : List F) (shift : ℕ) where
    abbrev pub against_earlier : ℕ → List ℕ → Best F → Best F
    against_earlier b [] best = best
    against_earlier b (a ∷ earlier) best = against_earlier b earlier (
        consider_swings (nth a window) (nth b window) (peak_at rsi (shift + a))
          (peak_at rsi (shift + b)) best)

    -- The swings, latest first.
    abbrev pub over_swings : List ℕ → Best F → Best F
    over_swings [] best = best
    over_swings (b ∷ earlier) best = over_swings earlier (
        if ltb max_bars_since_swing (length window - 1 - b)
        then best
        else against_earlier b earlier best)

  unfoldable pub detect_rsi_divergence : List (Candle F) → Timeframe → Option RsiDivergence
  detect_rsi_divergence candles tf =
      let window = drop (length candles - lookback) candles in
      let rsi = compute_rsi_series candles rsi_period in
      let shift : ℕ = length candles - lookback - (length candles - length rsi) in
      let swings = find_swing_highs window min_swing_distance (lit (pos 15) 2) in
      if ltb (length candles) (rsi_period + lookback + 10)
      then none
      else reported tf (over_swings window rsi shift (reverse swings) (none, lit (negsuc 0) 0)).0

  length-steps :
      (g : Candle F → Candle F → F) (cs : List (Candle F)) → length (steps g cs) ≡ length cs - 1
  length-steps g [] = omega arith
  length-steps g (c ∷ []) = omega arith
  length-steps g (c ∷ d ∷ cs) = omega (arith, length-steps g (d ∷ cs))

  length-series_from :
      (period : ℕ) (avgs : F × F) (xs : List F)
      → length (series_from period avgs xs) ≡ suc (length xs)
  length-series_from period avgs [] = refl
  length-series_from period avgs (x ∷ xs) =
      ap suc (length-series_from period (next_averages period avgs x) xs)

  -- Of more candles than its period, the series has one value for each candle after the first `period`
  -- of them: the offset of `DetectRSIDivergence` is the period.
  pub length-compute_rsi_series :
      (candles : List (Candle F)) (period : ℕ)
      → period < length candles
      → length candles - length (compute_rsi_series candles period) ≡ period
  unfolding compute_rsi_series
  length-compute_rsi_series candles period h =
      let start =
        averaged period (sum_changes (nought, nought) (take period (close_changes candles))) in
      let long = length-series_from period start (drop period (close_changes candles)) in
      let left = length-drop period (close_changes candles) in
      let all = length-steps (λ before c. sub c.close before.close) candles in
      let enough : ltb (length candles) (period + 1) ≡ false = ground arith in
      rw enough (omega (arith, h, long, left, all))
