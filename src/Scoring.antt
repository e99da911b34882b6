-- ===== src/Scoring.antt =====
-- internal/scoring/scorer.go: the multipliers of a candidate's parts, their penalties and its
-- confidence. Scoring/Candles has `scoreCandlePatterns` and `Score`.
pub mod Thresholds
pub mod Divergence
pub mod Confidence
pub mod Candles
pub mod Composite
mod Tests
use Prim.Native.String.{String}
use text.Mathlib.Text.{◌==◌ as str_eq}
use binance_futures.Base.{
  ℕ, zero, suc, ◌+◌, Bool, true, false, not, ◌&&◌, ◌||◌, Option, none, some, List, [], ◌∷◌, ltb,
  leb, ◌==◌, if◌then◌else◌,
}
use binance_futures.Base.Int.{ℤ, pos, negsuc, sub_ℕ, ltb_ℤ, leb_ℤ}
use binance_futures.Base.Sorting.{Sorter}
use binance_futures.Float64.{Float64, nought}
use binance_futures.Domain.{
  ScoringThreshold, ConfidenceTier, BtcContext, Trend, RsiDivergence, CandleSignal, CandlePattern,
  PatternStrength, Timeframe, IndicatorSnapshot,
}

abbrev pub strength_rank : PatternStrength → ℕ
strength_rank PatternStrength.strong = 3
strength_rank PatternStrength.medium = 2
strength_rank PatternStrength.weak = 1

abbrev pub same_timeframe : Timeframe → Timeframe → Bool
same_timeframe Timeframe.m5 Timeframe.m5 = true
same_timeframe Timeframe.m15 Timeframe.m15 = true
same_timeframe Timeframe.m30 Timeframe.m30 = true
same_timeframe Timeframe.h1 Timeframe.h1 = true
same_timeframe Timeframe.h4 Timeframe.h4 = true
same_timeframe Timeframe.d1 Timeframe.d1 = true
same_timeframe _ _ = false

-- `tfCount` after one more divergence: the strongest of each timeframe.
abbrev pub note_strength :
    Timeframe
    → PatternStrength
    → List (Timeframe × PatternStrength)
    → List (Timeframe × PatternStrength)
note_strength t s [] = (t, s) ∷ []
note_strength t s ((u, r) ∷ rest) =
    if same_timeframe t u
    then (u, if ltb (strength_rank r) (strength_rank s) then s else r) ∷ rest
    else (u, r) ∷ note_strength t s rest

abbrev pub note_all :
    List RsiDivergence → List (Timeframe × PatternStrength) → List (Timeframe × PatternStrength)
note_all [] m = m
note_all (d ∷ ds) m = note_all ds (note_strength d.timeframe d.strength m)

abbrev pub strong_count : List (Timeframe × PatternStrength) → ℕ
strong_count [] = 0
strong_count ((_, PatternStrength.strong) ∷ m) = suc (strong_count m)
strong_count (_ ∷ m) = strong_count m

abbrev pub medium_count : List (Timeframe × PatternStrength) → ℕ
medium_count [] = 0
medium_count ((_, PatternStrength.medium) ∷ m) = suc (medium_count m)
medium_count (_ ∷ m) = medium_count m

abbrev pub condition_of : ℕ → ℕ → String
condition_of strong medium =
    if leb 2 strong
    then "strong_multitf"
    else if strong == 1
    then "strong"
    else if leb 2 medium
    then "medium_multitf"
    else if medium == 1
    then "medium"
    else "weak"

unfoldable pub rsidiv_condition : List RsiDivergence → String
rsidiv_condition [] = "none"
rsidiv_condition (d ∷ ds) =
    let m = note_all (d ∷ ds) [] in condition_of (strong_count m) (medium_count m)

-- The first order is the second less one.
abbrev pub previous_order : ℤ → ℤ → Bool
previous_order (pos n) (pos m) = suc n == m
previous_order (negsuc n) (negsuc m) = n == suc m
previous_order (negsuc zero) (pos zero) = true
previous_order _ _ = false

module _ {F : Type 0} ⦃f : Float64 F⦄ where
  open f use {lit, add, sub, mul, div, neg, ceil, lt, le, eq}

  -- `t.MinValue != nil && value < *t.MinValue`
  abbrev pub under : F → Option F → Bool
  under value none = false
  under value (some low) = lt value low

  -- `t.MaxValue != nil && value >= *t.MaxValue`
  abbrev pub over : F → Option F → Bool
  over value none = false
  over value (some high) = le high value

  -- The tests that skip a tier.
  abbrev pub holds : String → F → ScoringThreshold F → Bool
  holds category value t =
      str_eq t.category category && not (under value t.min_value) && not (over value t.max_value)

  abbrev pub first_tier :
      (ScoringThreshold F → Bool) → List (ScoringThreshold F) → Option (ScoringThreshold F)
  first_tier p [] = none
  first_tier p (t ∷ ts) = if p t then some t else first_tier p ts

  unfoldable pub eval_threshold : List (ScoringThreshold F) → String → F → F
  eval_threshold ts category value = elim (first_tier (holds category value) ts) [
    | none ↦ nought
    | some t ↦ t.multiplier
  ]

  -- The multiplier of the tier before `t`, 0 without one.
  abbrev pub prev_multiplier : List (ScoringThreshold F) → String → ℤ → F
  prev_multiplier ts category order =
      elim (first_tier (λ u. str_eq u.category category && previous_order u.tier_order order) ts) [
        | none ↦ nought
        | some u ↦ u.multiplier
      ]

  -- The ramp within `[low, high)`.
  abbrev pub ramp : F → F → F → F → F → F
  ramp base top low high value = add base (mul (div (sub value low) (sub high low)) (sub top base))

  -- The value of a tier, by `t.Interpolate`, `t.MinValue` and `t.MaxValue`.
  abbrev pub tier_value :
      List (ScoringThreshold F) → String → F → ScoringThreshold F → Bool → Option F → Option F → F
  tier_value ts category value t true (some low) (some high) =
      if eq high low
      then t.multiplier
      else ramp (prev_multiplier ts category t.tier_order) t.multiplier low high value
  tier_value ts category value t _ _ _ = t.multiplier

  unfoldable pub eval_interpolated : List (ScoringThreshold F) → String → F → F
  eval_interpolated ts category value = elim (first_tier (holds category value) ts) [
    | none ↦ nought
    | some t ↦ tier_value ts category value t t.interpolate t.min_value t.max_value
  ]

  abbrev pub btc_condition : Option (BtcContext F) → String
  btc_condition none = "neutral"
  btc_condition (some b) = elim b.trend [
    | Trend.bullish ↦
        if b.is_breakout
        then "breakout_bullish"
        else if ltb_ℤ (pos 70) b.momentum_score
        then "bullish_high_momentum"
        else "bullish"
    | Trend.bearish ↦ "bearish"
    | Trend.neutral ↦ "neutral"
  ]

  unfoldable pub eval_btc : List (ScoringThreshold F) → Option (BtcContext F) → F
  eval_btc ts btc =
      elim (first_tier (λ t. str_eq t.category "btc" && str_eq t.condition (btc_condition btc))
        ts) [ none ↦ lit (pos 7) 1 | some t ↦ t.multiplier ]

  unfoldable pub eval_volume : List (ScoringThreshold F) → Bool → F → F
  unfolding eval_threshold
  eval_volume ts spike rsi = eval_threshold ts "volume" (if spike then rsi else lit (negsuc 0) 0)

  -- `rsiThreshold`.
  abbrev pub rsi_threshold : ℕ → ℤ → ℕ → String → ScoringThreshold F
  rsi_threshold order m k condition = record {
    category = "rsi_divergence";
    tier_order = pos order;
    min_value = none;
    max_value = none;
    multiplier = lit m k;
    interpolate = false;
    condition = condition;
  }

  abbrev pub rsi_thresholds : List (ScoringThreshold F)
  rsi_thresholds =
      rsi_threshold 1 (pos 100) 2 "strong_multitf"
      ∷ rsi_threshold 2 (pos 80) 2 "strong"
      ∷ rsi_threshold 3 (pos 60) 2 "strong_multitf"
      ∷ rsi_threshold 4 (pos 40) 2 "medium"
      ∷ rsi_threshold 5 (pos 20) 2 "weak"
      ∷ rsi_threshold 6 (pos 0) 2 "none"
      ∷ []

  unfoldable pub eval_rsi_divergence : List RsiDivergence → F
  unfolding rsidiv_condition
  eval_rsi_divergence divs =
      elim (first_tier
        (λ t. str_eq t.category "rsi_divergence" && str_eq t.condition (rsidiv_condition divs))
        rsi_thresholds) [ none ↦ nought | some t ↦ t.multiplier ]

  -- A pattern without an entry weighs 0.
  abbrev pub bullish_pattern_weight : CandlePattern → F
  bullish_pattern_weight CandlePattern.hammer = lit (pos 5) 1
  bullish_pattern_weight CandlePattern.strong_momentum = lit (pos 10) 1
  bullish_pattern_weight CandlePattern.bullish_engulfing = lit (pos 15) 1
  bullish_pattern_weight CandlePattern.morning_star = lit (pos 20) 1
  bullish_pattern_weight CandlePattern.break_of_structure = lit (pos 60) 1
  bullish_pattern_weight CandlePattern.liquidity_sweep = lit (pos 60) 1
  bullish_pattern_weight CandlePattern.lower_wick_reject = lit (pos 10) 1
  bullish_pattern_weight _ = nought

  abbrev pub signal_points : CandleSignal → F
  signal_points sig = elim sig.strength [
    | PatternStrength.strong ↦ bullish_pattern_weight sig.pattern_seen
    | PatternStrength.medium ↦ ceil (mul (bullish_pattern_weight sig.pattern_seen) (lit (pos 5) 1))
    | PatternStrength.weak ↦ lit (pos 1) 0
  ]

  abbrev add_points : F → List CandleSignal → F
  add_points score [] = score
  add_points score (sig ∷ rest) = add_points (add score (signal_points sig)) rest

  abbrev pub bullish_signal_score : List CandleSignal → F
  bullish_signal_score signals = add_points nought signals

  unfoldable pub score_bullish_penalty : List CandleSignal → F → F
  score_bullish_penalty signals weight =
      let score = bullish_signal_score signals in
      if le (lit (pos 16) 0) score
      then neg weight
      else if le (lit (pos 12) 0) score
      then neg (mul weight (lit (pos 5) 1))
      else if le (lit (pos 8) 0) score
      then neg (mul weight (lit (pos 25) 2))
      else nought

  abbrev pub momentum_multiplier : IndicatorSnapshot F → F
  momentum_multiplier ind =
      let m =
        if ind.bullish_momentum then mul (lit (pos 1) 0) (lit (pos 80) 2) else lit (pos 1) 0 in
      if ind.bearish_momentum_weak then mul m (lit (pos 90) 2) else m

  unfoldable pub score_momentum_penalty : Option (IndicatorSnapshot F) → F → F
  score_momentum_penalty none pre = nought
  score_momentum_penalty (some ind) pre =
      if le pre nought
      then nought
      else if eq (momentum_multiplier ind) (lit (pos 1) 0)
      then nought
      else sub (mul pre (momentum_multiplier ind)) pre

  -- The `less` of `sort.Slice`: a greater minimum goes first.
  abbrev pub demands_more : ConfidenceTier F → ConfidenceTier F → Bool
  demands_more a b = lt b.min_score a.min_score

  abbrev pub first_reached : F → List (ConfidenceTier F) → String × F
  first_reached score [] = ("SKIP", nought)
  first_reached score (t ∷ ts) =
      if le t.min_score score then (t.confidence, t.position_size_pct) else first_reached score ts

  module _ (s : Sorter (ConfidenceTier F)) where
    unfoldable pub map_score_to_confidence : List (ConfidenceTier F) → F → String × F
    map_score_to_confidence tiers score = first_reached score (s.sort demands_more tiers)
