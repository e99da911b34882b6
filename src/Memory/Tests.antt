-- ===== src/Memory/Tests.antt =====
-- Examples for the memory: two trades of the day before, at the same hour.
use Prim.Native.String.{String}
use binance_futures.Base.{arith, ℕ, ◌+◌, ◌*◌, ◌≡◌, refl, none, some, false, [], ◌∷◌, Option, List}
use binance_futures.Base.Int.{ℤ, pos}
use binance_futures.Base.Sorting.{IsStrictWeak}
use binance_futures.Base.Sorting.Insertion.{insertion, insertion-IsSort}
use binance_futures.Float64.Fixed.{fixed}
use binance_futures.Domain.{BtcContext, IndicatorSnapshot, Trend}
use binance_futures.Indicators.Snapshot.{compute}
use binance_futures.Samples.{candidate, coins}
use binance_futures.Scheduler.{day, hour}
use binance_futures.Memory.{
  more_similar, FindResult, RetrieverConfig, TradeMemory, crash, find_similar, funding_window_label,
}
use binance_futures.Memory.Retrieved.{Answers, find_similar-Answers}

abbrev blank : IndicatorSnapshot ℤ
blank = compute (λ _ _. []) none 0 "BTCUSDT"

abbrev calm : BtcContext ℤ
calm = record {
  trend = Trend.neutral;
  momentum_score = pos 0;
  volatility = "low";
  rsi14_1h = coins 50;
  price_change_1h = pos 0;
  price_change_15m = pos 0;
  is_breakout = false;
}

abbrev remembered : String → ℕ → TradeMemory ℤ
remembered outcome similarity = record {
  base_similarity = pos similarity;
  outcome = outcome;
  profit_pct = coins 2;
  lesson = "";
  entry_mode = "AFTER";
  funding_rate = pos 0;
  created_at = 19_766 * day + 7 * hour;
  funding_bucket = pos 1;
  daily_roi = coins 20;
  atr_ratio = pos 0;
  rsi14_15m = pos 0;
  rsi7_5m = pos 0;
  oi_delta_1h = pos 0;
  oi_delta_15m = pos 0;
  btc_regime = "NEUTRAL";
}

abbrev trades : List (TradeMemory ℤ)
trades = remembered "WIN" 90_000_000 ∷ remembered "LOSS" 95_000_000 ∷ remembered "" 99_000_000 ∷ []

abbrev settings : RetrieverConfig ℤ
settings = record { top_similar = pos 1; min_similarity = pos 40_000_000 }

abbrev answer : Option (BtcContext ℤ) → FindResult ℤ
answer btc =
    find_similar insertion settings (some trades) blank btc (candidate "BTCUSDT" 80).candidate
      (19_767 * day + 7 * hour) (19_767 * day + 7 * hour)

more_similar-IsStrictWeak : IsStrictWeak (more_similar {F = ℤ})
more_similar-IsStrictWeak = record {
  asym = λ a b h. ground arith;
  trans = λ a b c h k. ground arith;
  cotrans = λ a b c h. ground arith;
}

find_similar-Answers_example :
    Answers settings blank
      (candidate "BTCUSDT" 80).candidate
      (19_767 * day + 7 * hour)
      (19_767 * day + 7 * hour)
      (some trades)
      (some calm)
      (answer (some calm))
find_similar-Answers_example =
    find_similar-Answers settings blank (candidate "BTCUSDT" 80).candidate (19_767 * day + 7 * hour)
      (19_767 * day + 7 * hour) insertion insertion-IsSort more_similar-IsStrictWeak (some trades)
      (some calm)

without_btc : answer none ≡ crash
unfolding find_similar
without_btc = refl

before_eight : funding_window_label (19_767 * day + 7 * hour) ≡ 8
before_eight = refl
