-- ===== src/Domain/Indicators.antt =====
-- internal/domain/indicator.go and candle.go.
use Prim.Native.String.{String}
use binance_futures.Base.{ℕ, Bool, List}
use binance_futures.Base.Int.{ℤ}

pub data Timeframe : Type 0 where
  m5 m15 m30 h1 h4 d1 : Timeframe

pub record Candle (F : Type 0) : Type 0 where
  pub symbol : String
  pub timeframe : Timeframe
  pub open_time : ℕ
  pub opening : F
  pub high : F
  pub low : F
  pub close : F
  pub volume : F
  pub close_time : ℕ
  pub is_closed : Bool

pub data CandlePattern : Type 0 where
  no_pattern shooting_star bearish_engulfing evening_star upper_wick_reject : CandlePattern
  doji_after_pump failed_breakout break_structure : CandlePattern
  bullish_engulfing hammer strong_momentum morning_star break_of_structure : CandlePattern
  liquidity_sweep lower_wick_reject : CandlePattern

pub data PatternStrength : Type 0 where
  strong medium weak : PatternStrength

pub record CandleSignal : Type 0 where
  pub timeframe : Timeframe
  pub pattern_seen : CandlePattern
  pub strength : PatternStrength

pub record RsiDivergence : Type 0 where
  pub timeframe : Timeframe
  pub strength : PatternStrength

pub record IndicatorSnapshot (F : Type 0) : Type 0 where
  pub symbol : String
  pub timestamp : ℕ
  pub rsi14_15m : F
  pub rsi7_5m : F
  pub oi_delta_1h : F
  pub oi_delta_15m : F
  pub atr14_1h : F
  pub atr_ratio : F
  pub vol_change_5m : F
  pub volume_spike : Bool
  pub patterns : List CandleSignal
  pub bullish_patterns : List CandleSignal
  pub rsi_divergences : List RsiDivergence
  pub momentum_loss : Bool
  pub bullish_momentum : Bool
  pub bearish_momentum_weak : Bool

pub data Trend : Type 0 where
  bullish neutral bearish : Trend

pub record BtcContext (F : Type 0) : Type 0 where
  pub trend : Trend
  pub momentum_score : ℤ
  pub volatility : String
  pub rsi14_1h : F
  pub price_change_1h : F
  pub price_change_15m : F
  pub is_breakout : Bool
