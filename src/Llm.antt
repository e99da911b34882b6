-- ===== src/Llm.antt =====
-- internal/llm: what the language model is asked (schema.go, mapper.go) and what is made of its answer.
-- The texts of the prompts, the HTTP call and the decoding of JSON stand between the request and the
-- answer, and are one function in the models.
pub mod Decision
pub mod ForceSl
pub mod Client
mod Tests
use Prim.Native.String.{String}
use binance_futures.Base.{
  ℕ, ◌*◌, ◌/◌, ◌%◌, Bool, false, Option, none, some, List, [], map, suc, if◌then◌else◌,
}
use binance_futures.Base.Int.{ℤ, pos, negsuc, sub_ℕ, ltb_ℤ}
use binance_futures.Float64.{Float64, nought, hundred}
use binance_futures.Domain.{
  BtcContext, CandlePattern, CandleSignal, IndicatorSnapshot, ModeWinRate, RsiDivergence,
  ScoreBreakdown, ScoredCandidate, SimilarTrade, Trend,
}
use binance_futures.Scheduler.{minute, second, next_funding_time}
use binance_futures.Scoring.Candles.{strength_text, timeframe_text}

pub record LlmBtcContext (F : Type 0) : Type 0 where
  pub trend : String
  pub momentum_score : ℤ
  pub volatility : String
  pub is_breakout : Bool
  pub rsi : F
  pub price_change_1h : F

-- `LLMCandleInfo`, and `LLMRSIDivergence` below.
pub record LlmCandleInfo : Type 0 where
  pub timeframe : String
  pub pattern_seen : String
  pub strength : String

pub record LlmRsiDivergence : Type 0 where
  pub timeframe : String
  pub strength : String

pub record LlmBreakdown (F : Type 0) : Type 0 where
  pub funding : F
  pub oi : F
  pub oi_15m : F
  pub btc : F
  pub candle : F
  pub volume : F
  pub roi : F
  pub volatility : F

pub record LlmCandidate (F : Type 0) : Type 0 where
  pub symbol : String
  pub funding_rate : F
  pub daily_roi : F
  pub projected_tp1_pct : F
  pub composite_score : F
  pub score_breakdown : LlmBreakdown F
  pub rsi14_15m : F
  pub rsi7_5m : F
  pub oi_delta_1h : F
  pub oi_delta_15m : F
  pub atr_ratio : F
  pub vol_change_5m : F
  pub volume_spike_flag : Bool
  pub momentum_loss : Bool
  pub bullish_momentum : Bool
  pub bearish_momentum_weak : Bool
  pub candle_patterns : List LlmCandleInfo
  pub bullish_patterns : List LlmCandleInfo
  pub rsi_divergences : List LlmRsiDivergence
  pub similar_trades : List (SimilarTrade F)
  pub mode_win_rates : List (String × ModeWinRate)

pub record LlmPriorContext : Type 0 where
  pub window : String
  pub action : String
  pub reasons : List String
  pub warnings : List String
  pub age_mins : ℤ

pub record LlmRequest (F : Type 0) : Type 0 where
  pub timestamp : ℕ
  pub minutes_to_settlement : ℤ
  pub btc_context : LlmBtcContext F
  pub candidates : List (LlmCandidate F)
  pub prior_context : Option LlmPriorContext

abbrev pub trend_text : Trend → String
trend_text Trend.bullish = "bullish"
trend_text Trend.neutral = "neutral"
trend_text Trend.bearish = "bearish"

abbrev pub pattern_text : CandlePattern → String
pattern_text CandlePattern.no_pattern = "NONE"
pattern_text CandlePattern.shooting_star = "SHOOTING_STAR"
pattern_text CandlePattern.bearish_engulfing = "BEARISH_ENGULFING"
pattern_text CandlePattern.evening_star = "EVENING_STAR"
pattern_text CandlePattern.upper_wick_reject = "UPPER_WICK_REJECTION"
pattern_text CandlePattern.doji_after_pump = "DOJI_AFTER_PUMP"
pattern_text CandlePattern.failed_breakout = "FAILED_BREAKOUT"
pattern_text CandlePattern.break_structure = "BREAK_STRUCTURE"
pattern_text CandlePattern.bullish_engulfing = "BULLISH_ENGULFING"
pattern_text CandlePattern.hammer = "HAMMER"
pattern_text CandlePattern.strong_momentum = "STRONG_MOMENTUM"
pattern_text CandlePattern.morning_star = "MORNING_STAR"
pattern_text CandlePattern.break_of_structure = "BREAK_OF_STRUCTURE"
pattern_text CandlePattern.liquidity_sweep = "LIQUIDITY_SWEEP"
pattern_text CandlePattern.lower_wick_reject = "LOWER_WICK_REJECTION"

abbrev pub candle_info : CandleSignal → LlmCandleInfo
candle_info sig = record {
  timeframe = timeframe_text sig.timeframe;
  pattern_seen = pattern_text sig.pattern_seen;
  strength = strength_text sig.strength;
}

abbrev pub divergence_info : RsiDivergence → LlmRsiDivergence
divergence_info d = record {
  timeframe = timeframe_text d.timeframe;
  strength = strength_text d.strength;
}

-- A candidate stands with its snapshot, which the code reads without a test for nil.
module _ {F : Type 0} ⦃f : Float64 F⦄ where
  open f use {lit, of_int, to_int, add, mul, div, neg, abs, round}

  abbrev pub no_btc_context : LlmBtcContext F
  no_btc_context = record {
    trend = "";
    momentum_score = pos 0;
    volatility = "";
    is_breakout = false;
    rsi = nought;
    price_change_1h = nought;
  }

  abbrev pub btc_info : Option (BtcContext F) → LlmBtcContext F
  btc_info none = no_btc_context
  btc_info (some b) = record {
    trend = trend_text b.trend;
    momentum_score = b.momentum_score;
    volatility = b.volatility;
    is_breakout = b.is_breakout;
    rsi = b.rsi14_1h;
    price_change_1h = b.price_change_1h;
  }

  abbrev pub breakdown_info : ScoreBreakdown F → LlmBreakdown F
  breakdown_info b = record {
    funding = b.funding_score;
    oi = b.oi_score;
    oi_15m = b.oi_15m_score;
    btc = b.btc_score;
    candle = b.candle_score;
    volume = b.volume_score;
    roi = b.roi_score;
    volatility = b.volatility_score;
  }

  -- `math.Round(x*100) / 100`
  abbrev pub to_cents : F → F
  to_cents x = div (round (mul x hundred)) hundred

  abbrev pub map_similar_trade : SimilarTrade F → SimilarTrade F
  map_similar_trade t = record t { similarity = to_cents t.similarity }

  -- `time.Duration.Minutes`.
  abbrev pub minutes_of : ℕ → F
  minutes_of n =
      add (of_int (pos (n / minute))) (div (of_int (pos (n % minute))) (of_int (pos minute)))

  abbrev pub signed_minutes : ℤ → F
  signed_minutes (pos n) = minutes_of n
  signed_minutes (negsuc n) = neg (minutes_of (suc n))

  -- `minutesTo`.
  abbrev pub minutes_to : F → ℤ
  minutes_to until = let m = to_int (round until) in if ltb_ℤ m (pos 0) then pos 0 else m

  module _ (tp_pct : F) (similar : String → List (SimilarTrade F))
      (win_rates : String → List (String × ModeWinRate)) where
    abbrev pub map_candidate : ScoredCandidate F → IndicatorSnapshot F → LlmCandidate F
    map_candidate sc ind =
        let rate_pct = mul sc.candidate.funding_rate hundred in
        record {
          symbol = sc.candidate.symbol;
          funding_rate = rate_pct;
          daily_roi = sc.candidate.daily_roi;
          projected_tp1_pct = to_cents (add tp_pct (abs rate_pct));
          composite_score = sc.composite_score;
          score_breakdown = breakdown_info sc.breakdown;
          rsi14_15m = ind.rsi14_15m;
          rsi7_5m = ind.rsi7_5m;
          oi_delta_1h = ind.oi_delta_1h;
          oi_delta_15m = ind.oi_delta_15m;
          atr_ratio = ind.atr_ratio;
          vol_change_5m = ind.vol_change_5m;
          volume_spike_flag = ind.volume_spike;
          momentum_loss = ind.momentum_loss;
          bullish_momentum = ind.bullish_momentum;
          bearish_momentum_weak = ind.bearish_momentum_weak;
          candle_patterns = map candle_info ind.patterns;
          bullish_patterns = map candle_info ind.bullish_patterns;
          rsi_divergences = map divergence_info ind.rsi_divergences;
          similar_trades = map map_similar_trade (similar sc.candidate.symbol);
          mode_win_rates = win_rates sc.candidate.symbol;
        }

    -- `until_at` and `stamp_at` are the readings of the clock after `now`.
    abbrev pub map_to_llm_request :
        ℕ
        → ℕ
        → ℕ
        → List (ScoredCandidate F × IndicatorSnapshot F)
        → Option (BtcContext F)
        → Option LlmPriorContext
        → LlmRequest F
    map_to_llm_request now until_at stamp_at cs btc prior = record {
      timestamp = stamp_at / second;
      minutes_to_settlement = minutes_to (signed_minutes (sub_ℕ (next_funding_time now) until_at));
      btc_context = btc_info btc;
      candidates = map (λ (sc, ind). map_candidate sc ind) cs;
      prior_context = prior;
    }
