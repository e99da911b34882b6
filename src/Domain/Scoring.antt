-- ===== src/Domain/Scoring.antt =====
-- internal/domain/candidate.go, scored_candidate.go and scoring_config.go.
use Prim.Native.String.{String}
use binance_futures.Base.{Bool, Option, List}
use binance_futures.Base.Int.{ℤ}
use binance_futures.Domain.Indicators.{IndicatorSnapshot, BtcContext}

pub record Candidate (F : Type 0) : Type 0 where
  pub symbol : String
  pub funding_rate : F
  pub mark_price : F
  pub daily_roi : F
  pub roi_1d : F
  pub roi_4h : F
  pub roi_1h : F
  pub volume_24h : F
  pub score : F

pub record ScoreBreakdown (F : Type 0) : Type 0 where
  pub funding_score : F
  pub oi_score : F
  pub oi_15m_score : F
  pub btc_score : F
  pub candle_score : F
  pub volume_score : F
  pub roi_score : F
  pub volatility_score : F
  pub rsi_divergence_score : F
  pub bullish_candle_penalty : F
  pub momentum_penalty : F

pub record ScoredCandidate (F : Type 0) : Type 0 where
  pub candidate : Candidate F
  pub indicators : Option (IndicatorSnapshot F)
  pub btc_context : Option (BtcContext F)
  pub composite_score : F
  pub breakdown : ScoreBreakdown F
  pub confidence : String
  pub position_size_pct : F

pub record ScoringWeights (F : Type 0) : Type 0 where
  pub funding : F
  pub oi : F
  pub oi_15m : F
  pub btc : F
  pub candle : F
  pub volume : F
  pub roi : F
  pub volatility : F
  pub rsi_divergence : F

pub record ScoringThreshold (F : Type 0) : Type 0 where
  pub category : String
  pub tier_order : ℤ
  pub min_value : Option F
  pub max_value : Option F
  pub multiplier : F
  pub interpolate : Bool
  pub condition : String

pub record CandleWeight (F : Type 0) : Type 0 where
  pub type : String
  pub label : String
  pub weight : F

pub record ConfidenceTier (F : Type 0) : Type 0 where
  pub min_score : F
  pub confidence : String
  pub position_size_pct : F

pub record ScoringConfig (F : Type 0) : Type 0 where
  pub weights : ScoringWeights F
  pub thresholds : List (ScoringThreshold F)
  pub candle_weights : List (CandleWeight F)
  pub confidence_tiers : List (ConfidenceTier F)
