-- ===== src/Indicators/Tests.antt =====
-- Examples for the indicators: a rise of six candles and a long upper wick.
use binance_futures.Base.{ℕ, ◌+◌, ◌≡◌, refl, true, List, [], ◌∷◌}
use binance_futures.Base.Int.{ℤ, pos}
use binance_futures.Float64.Fixed.{fixed}
use binance_futures.Domain.{Candle, CandlePattern, PatternStrength, Timeframe}
use binance_futures.Samples.{coins}
use binance_futures.Indicators.Trend.{
  is_uptrend, bearish_break_of_structure, bearish_liquidity_sweep,
}
use binance_futures.Indicators.Bearish.{signal, detect_patterns}
use binance_futures.Indicators.Bullish.{detect_bullish_patterns}
use binance_futures.Indicators.Signals.{
  Reports, bearish_order, bullish_order, detect_patterns-Reports,
}

abbrev candle : ℕ → ℕ → ℕ → ℕ → ℕ → Candle ℤ
candle at opening high low close = record {
  symbol = "BTCUSDT";
  timeframe = Timeframe.h1;
  open_time = at;
  opening = coins opening;
  high = coins high;
  low = coins low;
  close = coins close;
  volume = coins 5;
  close_time = at + 1;
  is_closed = true;
}

abbrev rise : List (Candle ℤ)
rise =
    candle 0 100 111 99 110
    ∷ candle 1 110 121 109 120
    ∷ candle 2 120 131 119 130
    ∷ candle 3 130 141 129 140
    ∷ candle 4 140 151 139 150
    ∷ candle 5 150 161 149 160
    ∷ candle 6 162 182 160 161
    ∷ []

detect_patterns_wick :
    detect_patterns Timeframe.h1 (pos 0) rise
    ≡ signal Timeframe.h1 CandlePattern.upper_wick_reject PatternStrength.medium
      ∷ signal Timeframe.h1 CandlePattern.doji_after_pump PatternStrength.medium
      ∷ []
unfolding detect_patterns is_uptrend bearish_break_of_structure bearish_liquidity_sweep
detect_patterns_wick = refl

detect_patterns-Reports_example :
    Reports Timeframe.h1 bearish_order (detect_patterns Timeframe.h1 (pos 0) rise)
    × Reports Timeframe.h1 bullish_order (detect_bullish_patterns Timeframe.h1 (pos 0) (pos 0) rise)
detect_patterns-Reports_example = detect_patterns-Reports Timeframe.h1 (pos 0) (pos 0) rise
