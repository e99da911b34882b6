-- ===== src/Indicators/Signals.antt =====
-- The signals of internal/indicator/candle_pattern.go: their timeframe, their strength and their order.
use mathlib.Core.List.{reverse}
use binance_futures.Base.{
  ◌≢◌, refl, inl, inr, Bool, true, false, Bool-cases, ◌||◌, List, [], ◌∷◌, if◌then◌else◌, arith,
}
use binance_futures.Base.Int.{pos}
use binance_futures.Float64.{Float64, nought}
use binance_futures.Domain.{Candle, CandlePattern, CandleSignal, PatternStrength, Timeframe}
use binance_futures.Indicators.Trend.{emit, has_range, pattern_config, adjust_strength, strength_at}
use binance_futures.Indicators.Bearish.{
  signal, strong_if, detect_patterns, detect_recent, bearish_signals,
}
use binance_futures.Indicators.Bullish.{
  detect_bullish_patterns, detect_bullish_recent, bullish_signals,
}

-- The patterns in the order in which the detectors try them.
abbrev pub bearish_order : List CandlePattern
bearish_order =
    CandlePattern.shooting_star ∷ CandlePattern.bearish_engulfing ∷ CandlePattern.upper_wick_reject
    ∷ CandlePattern.evening_star ∷ CandlePattern.doji_after_pump ∷ CandlePattern.failed_breakout
    ∷ CandlePattern.break_structure ∷ CandlePattern.liquidity_sweep ∷ []

abbrev pub bullish_order : List CandlePattern
bullish_order =
    CandlePattern.bullish_engulfing ∷ CandlePattern.hammer ∷ CandlePattern.strong_momentum
    ∷ CandlePattern.morning_star ∷ CandlePattern.break_of_structure ∷ CandlePattern.liquidity_sweep
    ∷ CandlePattern.lower_wick_reject ∷ []

-- The signals are of patterns of `order`, each at most once and in this order, all of the timeframe `tf`
-- and none of them weak.
pub data Reports (tf : Timeframe) : List CandlePattern → List CandleSignal → Type 0 where
  done : Reports tf [] []
  skip :
      {p : CandlePattern} {order : List CandlePattern} {signals : List CandleSignal}
      → Reports tf order signals
      → Reports tf (p ∷ order) signals
  found :
      {p : CandlePattern} {order : List CandlePattern} {signals : List CandleSignal}
      (s : PatternStrength)
      → s ≢ PatternStrength.weak
      → Reports tf order signals
      → Reports tf (p ∷ order) (signal tf p s ∷ signals)

emit-Reports :
    {tf : Timeframe} {order : List CandlePattern} {signals : List CandleSignal} (b : Bool)
    (p : CandlePattern) (s : PatternStrength)
    → s ≢ PatternStrength.weak
    → Reports tf order signals
    → Reports tf (p ∷ order) (emit b (signal tf p s) signals)
emit-Reports true p s h r = Reports.found s h r
emit-Reports false p s h r = Reports.skip r

Reports-none : (tf : Timeframe) (order : List CandlePattern) → Reports tf order []
Reports-none tf [] = Reports.done
Reports-none tf (p ∷ order) = Reports.skip (Reports-none tf order)

Reports-if :
    {tf : Timeframe} {order : List CandlePattern} {signals : List CandleSignal} (b : Bool)
    → Reports tf order signals
    → Reports tf order (if b then signals else [])
Reports-if true r = r
Reports-if {tf} {order} false r = Reports-none tf order

strong_if-weak : (b : Bool) → strong_if b ≢ PatternStrength.weak
strong_if-weak true e = absurd (ground (arith, e))
strong_if-weak false e = absurd (ground (arith, e))

module _ {F : Type 0} ⦃f : Float64 F⦄ where
  open f use {lit, div, lt, le}

  strength_at-weak :
      (ratio : F) (s : PatternStrength)
      → s ≢ PatternStrength.weak
      → strength_at ratio s ≢ PatternStrength.weak
  strength_at-weak ratio PatternStrength.strong h e = elim (Bool-cases (lt ratio (lit (pos 7) 1))) [
    | inl t ↦ ground (arith, t, e)
    | inr t ↦ ground (arith, t, e)
  ]
  strength_at-weak ratio PatternStrength.medium h e =
      elim (Bool-cases (lt (lit (pos 15) 1) ratio)) [
        | inl t ↦ ground (arith, t, e)
        | inr t ↦ ground (arith, t, e)
      ]
  strength_at-weak ratio PatternStrength.weak h e = h refl

  adjust_strength-weak :
      (s : PatternStrength) (volume avg : F)
      → s ≢ PatternStrength.weak
      → adjust_strength s volume avg ≢ PatternStrength.weak
  adjust_strength-weak s volume avg h = elim (Bool-cases (le avg nought || le volume nought)) [
    | inl e ↦ rw e h
    | inr e ↦ rw e (strength_at-weak (div volume avg) s h)
  ]

  strong_adjusted :
      (volume avg : F) → adjust_strength PatternStrength.strong volume avg ≢ PatternStrength.weak
  strong_adjusted volume avg =
      adjust_strength-weak PatternStrength.strong volume avg (λ e. ground (arith, e))

  medium_adjusted :
      (volume avg : F) → adjust_strength PatternStrength.medium volume avg ≢ PatternStrength.weak
  medium_adjusted volume avg =
      adjust_strength-weak PatternStrength.medium volume avg (λ e. ground (arith, e))

  bearish_signals-Reports :
      (tf : Timeframe) (avg : F) (c p pp : Candle F) (before : List (Candle F))
      → Reports tf bearish_order (bearish_signals tf avg c p pp before)
  bearish_signals-Reports tf avg c p pp before = emit-Reports _ _ _ (strong_if-weak _) (
      emit-Reports _ _ _ (strong_if-weak _) (
        emit-Reports _ _ _ (medium_adjusted c.volume avg) (
          emit-Reports _ _ _ (strong_if-weak _) (
            emit-Reports _ _ _ (medium_adjusted c.volume avg) (
              emit-Reports _ _ _ (medium_adjusted c.volume avg) (
                emit-Reports _ _ _ (strong_adjusted c.volume avg)
                  (emit-Reports _ _ _ (strong_adjusted c.volume avg) Reports.done)))))))

  bullish_signals-Reports :
      (tf : Timeframe) (atr avg : F) (c p pp : Candle F) (before : List (Candle F))
      → Reports tf bullish_order (bullish_signals tf atr avg c p pp before)
  bullish_signals-Reports tf atr avg c p pp before = emit-Reports _ _ _ (strong_if-weak _) (
      emit-Reports _ _ _ (strong_if-weak _) (
        emit-Reports _ _ _ (medium_adjusted c.volume avg) (
          emit-Reports _ _ _ (strong_if-weak _) (
            emit-Reports _ _ _ (strong_adjusted c.volume avg) (
              emit-Reports _ _ _ (strong_adjusted c.volume avg)
                (emit-Reports _ _ _ (medium_adjusted c.volume avg) Reports.done))))))

  detect_recent-Reports :
      (tf : Timeframe) (avg : F) (cs : List (Candle F))
      → Reports tf bearish_order (detect_recent tf avg cs)
  detect_recent-Reports tf avg [] = Reports-none tf bearish_order
  detect_recent-Reports tf avg (c ∷ []) = Reports-none tf bearish_order
  detect_recent-Reports tf avg (c ∷ p ∷ []) = Reports-none tf bearish_order
  detect_recent-Reports tf avg (c ∷ p ∷ pp ∷ []) = Reports-none tf bearish_order
  detect_recent-Reports tf avg (c ∷ p ∷ pp ∷ q ∷ []) = Reports-none tf bearish_order
  detect_recent-Reports tf avg (c ∷ p ∷ pp ∷ q ∷ r ∷ before) =
      Reports-if (has_range (pattern_config tf) c)
        (bearish_signals-Reports tf avg c p pp (q ∷ r ∷ before))

  detect_bullish_recent-Reports :
      (tf : Timeframe) (atr avg : F) (cs : List (Candle F))
      → Reports tf bullish_order (detect_bullish_recent tf atr avg cs)
  detect_bullish_recent-Reports tf atr avg [] = Reports-none tf bullish_order
  detect_bullish_recent-Reports tf atr avg (c ∷ []) = Reports-none tf bullish_order
  detect_bullish_recent-Reports tf atr avg (c ∷ p ∷ []) = Reports-none tf bullish_order
  detect_bullish_recent-Reports tf atr avg (c ∷ p ∷ pp ∷ []) = Reports-none tf bullish_order
  detect_bullish_recent-Reports tf atr avg (c ∷ p ∷ pp ∷ q ∷ []) = Reports-none tf bullish_order
  detect_bullish_recent-Reports tf atr avg (c ∷ p ∷ pp ∷ q ∷ r ∷ before) =
      Reports-if (has_range (pattern_config tf) c)
        (bullish_signals-Reports tf atr avg c p pp (q ∷ r ∷ before))

  -- On any candles, `DetectPatterns` and `DetectBullishPatterns` each give signals of their own patterns
  -- only, each pattern at most once and in the order in which it is tried, all of the timeframe asked
  -- for; and a signal's strength, with its volume taken into account, is medium or strong.
  pub detect_patterns-Reports :
      (tf : Timeframe) (atr avg : F) (candles : List (Candle F))
      → Reports tf bearish_order (detect_patterns tf avg candles)
        × Reports tf bullish_order (detect_bullish_patterns tf atr avg candles)
  unfolding detect_patterns detect_bullish_patterns
  detect_patterns-Reports tf atr avg candles = (
    detect_recent-Reports tf avg (reverse candles),
    detect_bullish_recent-Reports tf atr avg (reverse candles),
  )
