-- ===== src/Market/Tests.antt =====
-- Examples for the market caches.
use binance_futures.Base.{ℕ, ◌+◌, ◌≡◌, refl, arith, true, List, [], ◌∷◌}
use binance_futures.Base.Int.{ℤ}
use binance_futures.Float64.Fixed.{fixed}
use binance_futures.Domain.{Candle, Timeframe}
use binance_futures.Samples.{coins}
use binance_futures.Market.Candles.{get_candles}
use binance_futures.Market.Candles.History.{
  StoreCall, run as run_store, fold_in, get_candles-history,
}
use binance_futures.Market.OpenInterest.{DeltaResult, update_oi, delta, delta_of}
use binance_futures.Market.OpenInterest.Delta.{OiCall, history as oi_history, delta-history}

abbrev candle : ℕ → ℕ → Candle ℤ
candle at close = record {
  symbol = "BTCUSDT";
  timeframe = Timeframe.h1;
  open_time = at;
  opening = coins 100;
  high = coins 110;
  low = coins 90;
  close = coins close;
  volume = coins 5;
  close_time = at + 60;
  is_closed = true;
}

-- The latest call first: a candle, and one that is updated after it has opened.
abbrev candle_calls : List (StoreCall ℤ)
candle_calls =
    StoreCall.update (candle 60 104)
    ∷ StoreCall.update (candle 60 103)
    ∷ StoreCall.update (candle 0 101)
    ∷ StoreCall.purge "ETHUSDT"
    ∷ []

get_candles-history_example :
    get_candles "BTCUSDT" Timeframe.h1 5 (run_store candle_calls)
    ≡ candle 0 101 ∷ candle 60 104 ∷ []
unfolding fold_in
get_candles-history_example =
    get_candles-history "BTCUSDT" Timeframe.h1 5 candle_calls (omega arith)

abbrev oi_calls : List (OiCall ℤ)
oi_calls =
    OiCall.update "BTCUSDT" (coins 110) 200
    ∷ OiCall.update "BTCUSDT" (coins 105) 180
    ∷ OiCall.update "BTCUSDT" (coins 100) 100
    ∷ []

delta-history_example :
    delta_of 50 200 (oi_history "BTCUSDT" oi_calls) ≡ DeltaResult.change (coins 10)
unfolding delta delta_of update_oi
delta-history_example = delta-history refl "BTCUSDT" 50 200 oi_calls (coins 10) refl
