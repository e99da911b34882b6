-- ===== src/Scoring/Tests.antt =====
-- Examples for the scorer: two volume tiers, three confidence tiers, a few divergences and a
-- whole score.
use Prim.Native.String.{String}
use binance_futures.Base.{arith, ◌≡◌, ◌⊎◌, refl, true, false, List, [], ◌∷◌, All, some, none}
use binance_futures.Base.Int.{ℤ, pos}
use binance_futures.Base.Sorting.Insertion.{insertion, insertion-IsSort}
use binance_futures.Float64.{nought}
use binance_futures.Float64.Fixed.{fixed, fixed-IsOrdered}
use binance_futures.Domain.{
  CandlePattern, CandleWeight, ConfidenceTier, IndicatorSnapshot, PatternStrength, RsiDivergence,
  ScoredCandidate, ScoringConfig, ScoringThreshold, Timeframe,
}
use binance_futures.Samples.{candidate, coins}
use binance_futures.Scoring.{map_score_to_confidence}
use binance_futures.Scoring.Candles.{score_candle_patterns}
use binance_futures.Scoring.Composite.{score, score-CandleCapped}
use binance_futures.Scoring.Confidence.{IsHighest, map_score_to_confidence_lem}
use binance_futures.Scoring.Divergence.{medium_at}

abbrev tiers : List (ScoringThreshold ℤ)
tiers =
    (record {
      category = "volume";
      tier_order = pos 1;
      min_value = some (coins 65);
      max_value = none;
      multiplier = coins 1;
      interpolate = false;
      condition = "";
    })
    ∷ (record {
      category = "volume";
      tier_order = pos 2;
      min_value = none;
      max_value = some (coins 65);
      multiplier = pos 50_000_000;
      interpolate = false;
      condition = "";
    })
    ∷ []

abbrev levels : List (ConfidenceTier ℤ)
levels =
    (record { min_score = coins 60; confidence = "LOW"; position_size_pct = coins 2 })
    ∷ (record { min_score = coins 80; confidence = "HIGH"; position_size_pct = coins 5 })
    ∷ (record { min_score = coins 0; confidence = "SKIP"; position_size_pct = coins 0 })
    ∷ []

irreflexive : (t : ConfidenceTier ℤ) → fixed.lt t.min_score t.min_score ≡ false
irreflexive t = ground arith

map_score_to_confidence_example :
    IsHighest (coins 75) levels (map_score_to_confidence insertion levels (coins 75))
    ⊎ ((map_score_to_confidence insertion levels (coins 75) ≡ ("SKIP", nought))
        × All (λ t. fixed.le t.min_score (coins 75) ≡ false) levels)
map_score_to_confidence_example =
    map_score_to_confidence_lem insertion insertion-IsSort irreflexive levels
      ((refl, (refl, tt)), ((refl, tt), (tt, tt))) (coins 75)

abbrev divergences : List RsiDivergence
divergences =
    medium_at Timeframe.h1
    ∷ (record { timeframe = Timeframe.m15; strength = PatternStrength.strong })
    ∷ []

abbrev seen : IndicatorSnapshot ℤ
seen = record {
  symbol = "BTCUSDT";
  timestamp = 0;
  rsi14_15m = coins 70;
  rsi7_5m = coins 80;
  oi_delta_1h = coins 3;
  oi_delta_15m = coins 1;
  atr14_1h = coins 1;
  atr_ratio = coins 2;
  vol_change_5m = coins 4;
  volume_spike = true;
  patterns =
      (record {
        timeframe = Timeframe.h1;
        pattern_seen = CandlePattern.failed_breakout;
        strength = PatternStrength.strong;
      })
      ∷ (record {
        timeframe = Timeframe.m15;
        pattern_seen = CandlePattern.upper_wick_reject;
        strength = PatternStrength.medium;
      })
      ∷ [];
  bullish_patterns = [];
  rsi_divergences = divergences;
  momentum_loss = false;
  bullish_momentum = true;
  bearish_momentum_weak = false;
}

abbrev row : String → String → ℤ → CandleWeight ℤ
row type label weight = record { type = type; label = label; weight = weight }

abbrev scoring : ScoringConfig ℤ
scoring = record {
  weights = record {
    funding = coins 20;
    oi = coins 10;
    oi_15m = coins 5;
    btc = coins 10;
    candle = coins 25;
    volume = coins 5;
    roi = coins 10;
    volatility = coins 5;
    rsi_divergence = coins 10;
  };
  thresholds = tiers;
  candle_weights =
      row "timeframe" "1h" (coins 1)
      ∷ row "timeframe" "15m" (pos 90_000_000)
      ∷ row "strength" "STRONG" (coins 1)
      ∷ row "strength" "MEDIUM" (pos 70_000_000)
      ∷ row "multitf_bonus" "2" (pos 10_000_000)
      ∷ [];
  confidence_tiers = levels;
}

abbrev scored : ScoredCandidate ℤ
scored = score insertion (λ ts. ts) scoring (candidate "BTCUSDT" 80).candidate seen none

-- Two timeframes: (3 + 2 · 0.9 · 0.7) · 1.2 of 17.1, and the bonus of 0.1.
candle_part : scored.breakdown.candle_score ≡ pos 997_368_400
unfolding score score_candle_patterns
candle_part = refl

score-CandleCapped_example :
    (fixed.le scored.breakdown.candle_score (coins 25) ≡ true)
    ⊎ (fixed.le scored.breakdown.candle_score scored.breakdown.candle_score ≡ false)
score-CandleCapped_example =
    score-CandleCapped fixed-IsOrdered insertion (λ ts. ts) scoring
      (candidate "BTCUSDT" 80).candidate seen none refl
