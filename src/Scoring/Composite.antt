-- ===== src/Scoring/Composite.antt =====
-- internal/scoring/scorer.go: `Score`, and the bound on its candle part. `ind` is not nil: the
-- code reads it unchecked.
use binance_futures.Base.{
  ◌≡◌, ◌⊎◌, inl, inr, true, false, Bool-cases, arith, List, [], ◌∷◌, Option, some,
}
use binance_futures.Base.Sorting.{Sorter}
use binance_futures.Float64.{Float64, IsOrdered, IsNumber, nought}
use binance_futures.Domain.{
  BtcContext, CandleSignal, Candidate, ConfidenceTier, IndicatorSnapshot, ScoreBreakdown,
  ScoredCandidate, ScoringConfig, Timeframe,
}
use binance_futures.Scoring.{
  eval_threshold, eval_interpolated, eval_btc, eval_volume, eval_rsi_divergence,
  score_bullish_penalty, score_momentum_penalty, map_score_to_confidence,
}
use binance_futures.Scoring.Candles.{
  CandleMaps, at_most, build_candle_maps, normalized_score, score_candle_patterns,
}

module _ {F : Type 0} ⦃f : Float64 F⦄ where
  open f use {add, mul, lt, le, eq}

  -- The sum of the parts, from the left, without the momentum penalty.
  abbrev pub signal_sum : ScoreBreakdown F → F
  signal_sum b =
      add
        (add
          (add
            (add
              (add
                (add (add (add (add b.funding_score b.oi_score) b.oi_15m_score) b.btc_score)
                  b.candle_score)
                b.volume_score)
              b.roi_score)
            b.volatility_score)
          b.rsi_divergence_score)
        b.bullish_candle_penalty

  module _ (visit : List Timeframe → List Timeframe) where
    -- The parts before the momentum penalty, which is 0 here.
    abbrev pub parts_of :
        ScoringConfig F
        → Candidate F
        → IndicatorSnapshot F
        → Option (BtcContext F)
        → ScoreBreakdown F
    parts_of cfg c ind btc = record {
      funding_score =
          mul (eval_interpolated cfg.thresholds "funding" c.funding_rate) cfg.weights.funding;
      oi_score = mul (eval_threshold cfg.thresholds "oi" ind.oi_delta_1h) cfg.weights.oi;
      oi_15m_score =
          mul (eval_threshold cfg.thresholds "oi_15m" ind.oi_delta_15m) cfg.weights.oi_15m;
      btc_score = mul (eval_btc cfg.thresholds btc) cfg.weights.btc;
      candle_score =
          score_candle_patterns visit ind.patterns cfg.weights.candle
            (build_candle_maps cfg.candle_weights);
      volume_score =
          mul (eval_volume cfg.thresholds ind.volume_spike ind.rsi7_5m) cfg.weights.volume;
      roi_score = mul (eval_threshold cfg.thresholds "roi" c.daily_roi) cfg.weights.roi;
      volatility_score =
          mul (eval_threshold cfg.thresholds "volatility" ind.atr_ratio) cfg.weights.volatility;
      rsi_divergence_score =
          mul (eval_rsi_divergence ind.rsi_divergences) cfg.weights.rsi_divergence;
      bullish_candle_penalty = score_bullish_penalty ind.bullish_patterns cfg.weights.candle;
      momentum_penalty = nought;
    }

  module _ (s : Sorter (ConfidenceTier F)) (visit : List Timeframe → List Timeframe) where
    unfoldable pub score :
        ScoringConfig F
        → Candidate F
        → IndicatorSnapshot F
        → Option (BtcContext F)
        → ScoredCandidate F
    score cfg c ind btc =
        let parts = parts_of visit cfg c ind btc in
        let penalty = score_momentum_penalty (some ind) (signal_sum parts) in
        let composite = add (signal_sum parts) penalty in
        let tier = map_score_to_confidence s cfg.confidence_tiers composite in
        record {
          candidate = c;
          indicators = some ind;
          btc_context = btc;
          composite_score = composite;
          breakdown = record parts { momentum_penalty = penalty };
          confidence = tier.0;
          position_size_pct = tier.1;
        }

  module _ (o : IsOrdered F) where
    at_most-Capped :
        (cap x : F)
        → IsNumber cap
        → (le (at_most cap x) cap ≡ true) ⊎ (le (at_most cap x) (at_most cap x) ≡ false)
    at_most-Capped cap x n = elim (Bool-cases (lt cap x)) [
      | inl y ↦ rw y (inl n)
      | inr y ↦ rw y (elim (Bool-cases (le x x)) [
        | inl m ↦ inl ground (arith, y, m, n, o.lt_iff cap x n m)
        | inr m ↦ inr m
      ])
    ]

    normalized_score-Capped :
        (raw top bonus max_score : F)
        → le nought max_score ≡ true
        → let r = normalized_score raw top bonus max_score in
          (le r max_score ≡ true) ⊎ (le r r ≡ false)
    normalized_score-Capped raw top bonus max_score h = elim (Bool-cases (eq top nought)) [
      | inl y ↦ rw y (inl h)
      | inr n ↦ rw n (at_most-Capped max_score _ (o.le_right nought max_score h))
    ]

    score_candle_patterns-Capped :
        (visit : List Timeframe → List Timeframe) (signals : List CandleSignal) (max_score : F)
        (m : CandleMaps F)
        → le nought max_score ≡ true
        → let r = score_candle_patterns visit signals max_score m in
          (le r max_score ≡ true) ⊎ (le r r ≡ false)
    unfolding score_candle_patterns
    score_candle_patterns-Capped visit [] max_score m h = inl h
    score_candle_patterns-Capped visit (sig ∷ rest) max_score m h =
        normalized_score-Capped _ _ _ max_score h

    -- With a candle weight of at least 0, over floats whose comparison is an order away from NaN,
    -- the candle part of a score is at most that weight, or NaN; whatever the candle weights are, and
    -- in whatever order the timeframes are visited.
    pub score-CandleCapped :
        (s : Sorter (ConfidenceTier F)) (visit : List Timeframe → List Timeframe)
        (cfg : ScoringConfig F) (c : Candidate F) (ind : IndicatorSnapshot F)
        (btc : Option (BtcContext F))
        → le nought cfg.weights.candle ≡ true
        → let r = (score s visit cfg c ind btc).breakdown.candle_score in
          (le r cfg.weights.candle ≡ true) ⊎ (le r r ≡ false)
    unfolding score
    score-CandleCapped s visit cfg c ind btc h =
        score_candle_patterns-Capped visit ind.patterns cfg.weights.candle
          (build_candle_maps cfg.candle_weights) h
