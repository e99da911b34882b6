-- ===== src/Indicators/Bearish.antt =====
-- DetectPatterns of internal/indicator/candle_pattern.go: one test for each bearish pattern, over the
-- last candle `c`, the one before it `p` and the one before that `pp`. Its argument `atr1h` is never read.
use mathlib.Core.List.{reverse}
use binance_futures.Base.{Bool, ◌&&◌, ◌||◌, List, [], ◌∷◌, if◌then◌else◌}
use binance_futures.Base.Int.{pos}
use binance_futures.Float64.{Float64, nought}
use binance_futures.Domain.{Candle, CandlePattern, CandleSignal, PatternStrength, Timeframe}
use binance_futures.Indicators.Trend.{
  PatternConfig, pattern_config, emit, body, body_size, candle_range, upper_wick, lower_wick,
  is_green, high_volume, has_range, is_uptrend, bearish_break_of_structure, bearish_liquidity_sweep,
  adjust_strength,
}

abbrev pub strong_if : Bool → PatternStrength
strong_if b = if b then PatternStrength.strong else PatternStrength.medium

abbrev pub signal : Timeframe → CandlePattern → PatternStrength → CandleSignal
signal tf pattern strength = record { timeframe = tf; pattern_seen = pattern; strength = strength }

module _ {F : Type 0} ⦃f : Float64 F⦄ where
  open f use {lit, mul, le}

  -- The strength of an engulfing candle, of either colour.
  abbrev pub engulfing_strength : Candle F → Candle F → Bool → PatternStrength
  engulfing_strength c p high = strong_if (
      (le (body_size p) (body_size c) && high)
      || le (mul (body_size p) (lit (pos 12) 1)) (body_size c))

module _ {F : Type 0} ⦃f : Float64 F⦄ (cfg : PatternConfig F) (uptrend : Bool) where
  open f use {lit, add, sub, mul, div, maximum, minimum, lt, le}

  -- `isUptrend(candles, cfg.TrendLookback)` is `uptrend` in what follows.
  abbrev pub is_shooting_star : Candle F → Bool
  is_shooting_star c =
      le (mul (body_size c) cfg.wick_body_ratio) (upper_wick c)
      && le (lit (pos 55) 2) (div (upper_wick c) (candle_range c))
      && le (lower_wick c) (mul (body_size c) (lit (pos 5) 1))
      && le (div (sub (maximum c.opening c.close) c.low) (candle_range c)) (lit (pos 35) 2)
      && uptrend

  abbrev pub is_bearish_engulfing : Candle F → Candle F → Bool
  is_bearish_engulfing c p =
      let tolerance = mul (candle_range c) (lit (pos 3) 2) in
      lt (body c) nought
      && is_green p
      && lt nought (candle_range p)
      && le (lit (pos 35) 2) (div (body_size p) (candle_range p))
      && uptrend
      && le (sub p.close tolerance) c.opening
      && le c.close (add p.opening tolerance)

  abbrev pub is_upper_wick_reject : Candle F → Bool
  is_upper_wick_reject c =
      le cfg.wick_reject_ratio (div (upper_wick c) (candle_range c))
      && le (mul (lower_wick c) (lit (pos 25) 1)) (upper_wick c)
      && le (div (body_size c) (candle_range c)) (lit (pos 35) 2)
      && uptrend

  abbrev pub is_doji_after_pump : Candle F → Candle F → Bool
  is_doji_after_pump c p =
      lt nought (candle_range p)
      && is_green p
      && le (lit (pos 65) 2) (div (body_size p) (candle_range p))
      && le (div (body_size c) (candle_range c)) cfg.doji_threshold
      && uptrend

  abbrev pub is_failed_breakout : Candle F → Candle F → Bool
  is_failed_breakout c p =
      lt nought p.high
      && le (lit (pos 4) 3) (div (sub c.high p.high) p.high)
      && lt c.close p.high
      && lt c.close c.opening
      && le (lit (pos 40) 2) (div (upper_wick c) (candle_range c))

  -- `uptrend` is that of the candles before `p`.
  abbrev pub is_evening_star : Candle F → Candle F → Candle F → Bool
  is_evening_star c p pp =
      is_green pp
      && lt nought (candle_range pp)
      && le (lit (pos 5) 1) (div (body_size pp) (candle_range pp))
      && lt (body c) nought
      && uptrend
      && le (body_size p) (mul (body_size pp) (lit (pos 45) 2))
      && le (sub pp.close (mul (body_size pp) (lit (pos 1) 1))) (maximum p.opening p.close)
      && le c.close (add pp.opening (mul (body_size pp) (lit (pos 5) 1)))

module _ {F : Type 0} ⦃f : Float64 F⦄ (tf : Timeframe) (avg_volume : F) where
  open f use {lit, add, mul, lt, le}

  -- The signals of the candles `c`, `p`, `pp` and `before`, latest first.
  abbrev pub bearish_signals : Candle F → Candle F → Candle F → List (Candle F) → List CandleSignal
  bearish_signals c p pp before =
      let cfg = pattern_config tf in
      let cs = c ∷ p ∷ pp ∷ before in
      let up = is_uptrend cs cfg.trend_lookback in
      let high = high_volume avg_volume c in
      let adjusted = λ (s : PatternStrength). adjust_strength s c.volume avg_volume in
      emit (is_shooting_star cfg up c)
        (signal tf CandlePattern.shooting_star (strong_if (high || lt (body c) nought)))
        (emit (is_bearish_engulfing cfg up c p)
          (signal tf CandlePattern.bearish_engulfing (engulfing_strength c p high))
          (emit (is_upper_wick_reject cfg up c)
            (signal tf CandlePattern.upper_wick_reject (adjusted PatternStrength.medium))
            (emit (is_evening_star cfg (is_uptrend (pp ∷ before) cfg.trend_lookback) c p pp)
              (signal tf CandlePattern.evening_star (
                strong_if
                  (le c.close (add pp.opening (mul (body_size pp) (lit (pos 3) 1))) || high)))
              (emit (is_doji_after_pump cfg up c p)
                (signal tf CandlePattern.doji_after_pump (adjusted PatternStrength.medium))
                (emit (is_failed_breakout cfg up c p)
                  (signal tf CandlePattern.failed_breakout (adjusted PatternStrength.medium))
                  (emit (bearish_break_of_structure cs cfg.trend_lookback)
                    (signal tf CandlePattern.break_structure (adjusted PatternStrength.strong))
                    (emit (bearish_liquidity_sweep cs cfg.trend_lookback)
                      (signal tf CandlePattern.liquidity_sweep (adjusted PatternStrength.strong))
                      [])))))))

  abbrev pub detect_recent : List (Candle F) → List CandleSignal
  detect_recent (c ∷ p ∷ pp ∷ q ∷ r ∷ before) =
      if has_range (pattern_config tf) c then bearish_signals c p pp (q ∷ r ∷ before) else []
  detect_recent _ = []

  -- Fewer than five candles give no signal.
  unfoldable pub detect_patterns : List (Candle F) → List CandleSignal
  detect_patterns candles = detect_recent (reverse candles)
