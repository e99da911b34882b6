-- ===== src/Indicators/Trend.antt =====
-- internal/indicator/candle_pattern.go: the thresholds of a timeframe, the measures of the last candle,
-- and the trend and the structure before it. Candles stand latest first here.
use binance_futures.Base.{
  ℕ, suc, ◌+◌, ◌/◌, Bool, false, ◌&&◌, ◌||◌, not, List, [], ◌∷◌, length, take, ltb, leb,
  if◌then◌else◌,
}
use binance_futures.Base.Int.{ℤ, pos}
use binance_futures.Float64.{Float64, nought}
use binance_futures.Domain.{Candle, CandleSignal, PatternStrength, Timeframe}

-- `EveningStarBody` is never read, and is left out.
pub record PatternConfig (F : Type 0) : Type 0 where
  pub wick_body_ratio : F
  pub wick_reject_ratio : F
  pub doji_threshold : F
  pub trend_lookback : ℕ
  pub min_candle_range : F
  pub atr_multiplier : F

-- `append` of a signal under a test; the signals come in the order of the calls.
abbrev pub emit : Bool → CandleSignal → List CandleSignal → List CandleSignal
emit b s rest = if b then s ∷ rest else rest

abbrev pub count_if : Bool → ℕ → ℕ
count_if b n = if b then suc n else n

-- At least two of the three counts over `n` candles reach their thresholds.
abbrev pub two_of_three : ℕ → ℕ → ℕ → ℕ → Bool
two_of_three n highs lows colours =
    let threshold : ℕ = if ltb (n / 3) 1 then 1 else n / 3 in
    leb 2 (
      count_if (leb threshold highs)
        (count_if (leb threshold lows) (count_if (leb (n / 2 + 1) colours) 0)))

module _ {F : Type 0} ⦃f : Float64 F⦄ where
  open f use {lit, sub, mul, div, abs, minimum, maximum, lt, le}

  abbrev pub pattern_config_of : ℤ → ℤ → ℤ → ℕ → ℤ → ℤ → PatternConfig F
  pattern_config_of wick reject doji lookback range atr = record {
    wick_body_ratio = lit wick 1;
    wick_reject_ratio = lit reject 2;
    doji_threshold = lit doji 2;
    trend_lookback = lookback;
    min_candle_range = lit range 4;
    atr_multiplier = lit atr 2;
  }

  -- `tfConfigs`, and `defaultConfig` for the other timeframes.
  abbrev pub pattern_config : Timeframe → PatternConfig F
  pattern_config Timeframe.m5 = pattern_config_of (pos 35) (pos 70) (pos 6) 12 (pos 40) (pos 35)
  pattern_config Timeframe.m15 = pattern_config_of (pos 30) (pos 65) (pos 7) 8 (pos 30) (pos 55)
  pattern_config Timeframe.m30 = pattern_config_of (pos 28) (pos 62) (pos 8) 6 (pos 25) (pos 75)
  pattern_config _ = pattern_config_of (pos 25) (pos 60) (pos 8) 5 (pos 20) (pos 100)

  -- Half of a candle's measures, as the detectors name them.
  abbrev pub body : Candle F → F
  body c = sub c.close c.opening

  abbrev pub body_size : Candle F → F
  body_size c = abs (body c)

  abbrev pub candle_range : Candle F → F
  candle_range c = sub c.high c.low

  abbrev pub upper_wick : Candle F → F
  upper_wick c = sub c.high (maximum c.opening c.close)

  abbrev pub lower_wick : Candle F → F
  lower_wick c = sub (minimum c.opening c.close) c.low

  abbrev pub is_green : Candle F → Bool
  is_green c = lt c.opening c.close

  abbrev pub is_red : Candle F → Bool
  is_red c = lt c.close c.opening

  abbrev pub high_volume : F → Candle F → Bool
  high_volume avg c = lt nought avg && le (mul avg (lit (pos 12) 1)) c.volume

  -- The range is positive, and not noise.
  abbrev pub has_range : PatternConfig F → Candle F → Bool
  has_range cfg c =
      not (le (candle_range c) nought)
      && not (lt nought c.close && lt (div (candle_range c) c.close) cfg.min_candle_range)

  abbrev pub oldest : Candle F → List (Candle F) → Candle F
  oldest c [] = c
  oldest _ (d ∷ cs) = oldest d cs

  -- How often a test holds of a candle and the one before it.
  abbrev pub count_pairs : (Candle F → Candle F → Bool) → List (Candle F) → ℕ
  count_pairs p [] = 0
  count_pairs p (c ∷ []) = 0
  count_pairs p (c ∷ d ∷ cs) = count_if (p c d) (count_pairs p (d ∷ cs))

  -- The window before the last candle: `candles[start..end]`.
  abbrev pub window : ℕ → List (Candle F) → List (Candle F)
  window lookback [] = []
  window lookback (_ ∷ cs) = take lookback cs

  abbrev pub gains : Candle F → Candle F → Bool
  gains first last =
      not (le first.close nought)
      && not (lt (div (sub last.close first.close) first.close) (lit (pos 5) 3))

  abbrev pub drops : Candle F → Candle F → Bool
  drops first last =
      not (le first.close nought)
      && not (lt (div (sub first.close last.close) first.close) (lit (pos 5) 3))

  abbrev pub rises : List (Candle F) → Bool
  rises [] = false
  rises (c ∷ cs) =
      gains (oldest c cs) c
      && two_of_three (length cs) (count_pairs (λ a b. lt b.high a.high) (c ∷ cs))
          (count_pairs (λ a b. lt b.low a.low) (c ∷ cs)) (count_pairs (λ a _. is_green a) (c ∷ cs))

  abbrev pub falls : List (Candle F) → Bool
  falls [] = false
  falls (c ∷ cs) =
      drops (oldest c cs) c
      && two_of_three (length cs) (count_pairs (λ a b. lt a.high b.high) (c ∷ cs))
          (count_pairs (λ a b. lt a.low b.low) (c ∷ cs)) (count_pairs (λ a _. is_red a) (c ∷ cs))

  unfoldable pub is_uptrend : List (Candle F) → ℕ → Bool
  is_uptrend cs lookback =
      if ltb (length cs) (lookback + 1) then false else rises (window lookback cs)

  unfoldable pub is_downtrend : List (Candle F) → ℕ → Bool
  is_downtrend cs lookback =
      if ltb (length cs) (lookback + 1) then false else falls (window lookback cs)

  abbrev pub highest : Candle F → List (Candle F) → F
  highest c [] = c.high
  highest c (d ∷ cs) = let before = highest d cs in if lt before c.high then c.high else before

  abbrev pub lowest : Candle F → List (Candle F) → F
  lowest c [] = c.low
  lowest c (d ∷ cs) = let before = lowest d cs in if lt c.low before then c.low else before

  -- A test of the last candle and of the window before it.
  abbrev pub against :
      (Candle F → Candle F → List (Candle F) → Bool) → Candle F → List (Candle F) → Bool
  against p c [] = false
  against p c (d ∷ cs) = p c d cs

  abbrev pub structure_test :
      (Candle F → Candle F → List (Candle F) → Bool) → List (Candle F) → ℕ → Bool
  structure_test p [] lookback = false
  structure_test p (c ∷ cs) lookback =
      if ltb (length (c ∷ cs)) (lookback + 2) then false else against p c (take lookback cs)

  unfoldable pub bullish_break_of_structure : List (Candle F) → ℕ → Bool
  bullish_break_of_structure =
      structure_test (λ c d cs. lt (highest d cs) c.close && lt c.opening c.close)

  unfoldable pub bullish_liquidity_sweep : List (Candle F) → ℕ → Bool
  bullish_liquidity_sweep =
      structure_test
        (λ c d cs. lt c.low (lowest d cs) && lt (lowest d cs) c.close && lt c.opening c.close)

  unfoldable pub bearish_break_of_structure : List (Candle F) → ℕ → Bool
  bearish_break_of_structure =
      structure_test (λ c d cs. lt c.close (lowest d cs) && lt c.close c.opening)

  unfoldable pub bearish_liquidity_sweep : List (Candle F) → ℕ → Bool
  bearish_liquidity_sweep =
      structure_test
        (λ c d cs. lt (highest d cs) c.high && lt c.close (highest d cs) && lt c.close c.opening)

  -- The strength by the ratio of the volume to its average.
  abbrev pub strength_at : F → PatternStrength → PatternStrength
  strength_at ratio PatternStrength.medium =
      if lt (lit (pos 15) 1) ratio then PatternStrength.strong else PatternStrength.medium
  strength_at ratio PatternStrength.strong =
      if lt ratio (lit (pos 7) 1) then PatternStrength.medium else PatternStrength.strong
  strength_at ratio PatternStrength.weak = PatternStrength.weak

  abbrev pub adjust_strength : PatternStrength → F → F → PatternStrength
  adjust_strength s volume avg =
      if le avg nought || le volume nought then s else strength_at (div volume avg) s
