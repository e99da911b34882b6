-- ===== src/Indicators/Bullish.antt =====
-- DetectBullishPatterns of internal/indicator/candle_pattern.go, in the form of Bearish.
use mathlib.Core.List.{reverse}
use binance_futures.Base.{Bool, ◌&&◌, ◌||◌, List, [], ◌∷◌, if◌then◌else◌}
use binance_futures.Base.Int.{pos}
use binance_futures.Float64.{Float64, nought}
use binance_futures.Domain.{Candle, CandlePattern, CandleSignal, PatternStrength, Timeframe}
use binance_futures.Indicators.Trend.{
  PatternConfig, pattern_config, emit, body, body_size, candle_range, upper_wick, lower_wick,
  is_red, high_volume, has_range, is_downtrend, bullish_break_of_structure, bullish_liquidity_sweep,
  adjust_strength,
}
use binance_futures.Indicators.Bearish.{strong_if, engulfing_strength, signal}

module _ {F : Type 0} ⦃f : Float64 F⦄ (cfg : PatternConfig F) (downtrend : Bool) where
  open f use {lit, add, sub, mul, div, maximum, minimum, lt, le}

  -- `isDowntrend(candles, cfg.TrendLookback)` is `downtrend` in what follows.
  abbrev pub is_bullish_engulfing : Candle F → Candle F → Bool
  is_bullish_engulfing c p =
      let tolerance = mul (candle_range c) (lit (pos 3) 2) in
      lt nought (body c)
      && is_red p
      && lt nought (candle_range p)
      && le (lit (pos 35) 2) (div (body_size p) (candle_range p))
      && downtrend
      && le c.opening (add p.close tolerance)
      && le (sub p.opening tolerance) c.close

  abbrev pub is_hammer : Candle F → Bool
  is_hammer c =
      le (lit (pos 60) 2) (div (sub (maximum c.opening c.close) c.low) (candle_range c))
      && le (mul (body_size c) cfg.wick_body_ratio) (lower_wick c)
      && le (upper_wick c) (mul (candle_range c) (lit (pos 25) 2))
      && le (div (body_size c) (candle_range c)) (lit (pos 45) 2)
      && downtrend

  -- `downtrend` is that of the candles before `p`.
  abbrev pub is_morning_star : Candle F → Candle F → Candle F → Bool
  is_morning_star c p pp =
      is_red pp
      && lt nought (candle_range pp)
      && le (lit (pos 5) 1) (div (body_size pp) (candle_range pp))
      && lt nought (body c)
      && downtrend
      && le (body_size p) (mul (body_size pp) (lit (pos 45) 2))
      && le (minimum p.opening p.close) (add pp.close (mul (body_size pp) (lit (pos 1) 1)))
      && le (add pp.close (mul (body_size pp) (lit (pos 5) 1))) c.close

  abbrev pub is_lower_wick_reject : Candle F → Bool
  is_lower_wick_reject c =
      le cfg.wick_reject_ratio (div (lower_wick c) (candle_range c))
      && le (mul (upper_wick c) (lit (pos 25) 1)) (lower_wick c)
      && le (div (body_size c) (candle_range c)) (lit (pos 35) 2)
      && downtrend

module _ {F : Type 0} ⦃f : Float64 F⦄ where
  open f use {lit, add, sub, mul, div, lt, le}

  -- `tfATR <= 0 || candleRange >= tfATR`
  abbrev pub atr_expansion : PatternConfig F → F → Candle F → Bool
  atr_expansion cfg atr_1h c =
      let tf_atr = if lt nought atr_1h then mul atr_1h cfg.atr_multiplier else nought in
      le tf_atr nought || le tf_atr (candle_range c)

  abbrev pub is_strong_momentum : PatternConfig F → F → F → Candle F → Bool
  is_strong_momentum cfg atr_1h avg_volume c =
      lt nought (body c)
      && le (lit (pos 60) 2) (div (body_size c) (candle_range c))
      && le (div (upper_wick c) (candle_range c)) (lit (pos 20) 2)
      && le (sub c.high (mul (candle_range c) (lit (pos 15) 2))) c.close
      && (high_volume avg_volume c || atr_expansion cfg atr_1h c)

module _ {F : Type 0} ⦃f : Float64 F⦄ (tf : Timeframe) (atr_1h avg_volume : F) where
  open f use {lit, add, mul, lt, le}

  -- The signals of the candles `c`, `p`, `pp` and `before`, latest first.
  abbrev pub bullish_signals : Candle F → Candle F → Candle F → List (Candle F) → List CandleSignal
  bullish_signals c p pp before =
      let cfg = pattern_config tf in
      let cs = c ∷ p ∷ pp ∷ before in
      let down = is_downtrend cs cfg.trend_lookback in
      let high = high_volume avg_volume c in
      let adjusted = λ (s : PatternStrength). adjust_strength s c.volume avg_volume in
      emit (is_bullish_engulfing cfg down c p)
        (signal tf CandlePattern.bullish_engulfing (engulfing_strength c p high))
        (emit (is_hammer cfg down c)
          (signal tf CandlePattern.hammer (strong_if (high || lt nought (body c))))
          (emit (is_strong_momentum cfg atr_1h avg_volume c)
            (signal tf CandlePattern.strong_momentum (adjusted PatternStrength.medium))
            (emit (is_morning_star cfg (is_downtrend (pp ∷ before) cfg.trend_lookback) c p pp)
              (signal tf CandlePattern.morning_star (
                strong_if (le (add pp.close (mul (body_size pp) (lit (pos 7) 1))) c.close || high)))
              (emit (bullish_break_of_structure cs cfg.trend_lookback)
                (signal tf CandlePattern.break_of_structure (adjusted PatternStrength.strong))
                (emit (bullish_liquidity_sweep cs cfg.trend_lookback)
                  (signal tf CandlePattern.liquidity_sweep (adjusted PatternStrength.strong))
                  (emit (is_lower_wick_reject cfg down c)
                    (signal tf CandlePattern.lower_wick_reject (adjusted PatternStrength.medium))
                    []))))))

  abbrev pub detect_bullish_recent : List (Candle F) → List CandleSignal
  detect_bullish_recent (c ∷ p ∷ pp ∷ q ∷ r ∷ before) =
      if has_range (pattern_config tf) c then bullish_signals c p pp (q ∷ r ∷ before) else []
  detect_bullish_recent _ = []

  unfoldable pub detect_bullish_patterns : List (Candle F) → List CandleSignal
  detect_bullish_patterns candles = detect_bullish_recent (reverse candles)
