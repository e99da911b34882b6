-- ===== src/Market/Candles.antt =====
-- internal/market/candle_store.go. The map of series is a function: a missing series reads as empty.
pub mod History
use Prim.Native.String.{String}
use mathlib.Core.Option
use text.Mathlib.Text.{◌==◌ as str_eq}
use binance_futures.Base.{
  ℕ, ◌-◌, Bool, ◌&&◌, Option, none, some, List, [], ◌∷◌, ◌++◌, length, drop, ltb, ◌==◌,
  if◌then◌else◌, last_of,
}
use binance_futures.Domain.{Candle, Timeframe}
use binance_futures.Scoring.{same_timeframe}

abbrev pub max_candles_per_series : ℕ
max_candles_per_series = 200

pub record CandleStore (F : Type 0) : Type 0 where
  pub series : String → Timeframe → List (Candle F)

module _ {F : Type 0} where
  abbrev pub new_candle_store : CandleStore F
  new_candle_store = record { series = λ _ _. [] }

  -- `*last = c`, if the last candle has opened at the same time.
  abbrev pub replace_last : List (Candle F) → Candle F → Option (List (Candle F))
  replace_last [] c = none
  replace_last (x ∷ []) c = if x.open_time == c.open_time then some (c ∷ []) else none
  replace_last (x ∷ y ∷ ys) c = Option.map (◌∷◌ x) (replace_last (y ∷ ys) c)

  unfoldable pub update_series : List (Candle F) → Candle F → List (Candle F)
  update_series cs c = elim (replace_last cs c) [
    | some replaced ↦ replaced
    | none ↦ last_of max_candles_per_series (cs ++ c ∷ [])
  ]

  unfoldable pub update_candle : Candle F → CandleStore F → CandleStore F
  unfolding update_series
  update_candle c s = record {
    series = λ symbol tf.
        if str_eq c.symbol symbol && same_timeframe c.timeframe tf
        then update_series (s.series symbol tf) c
        else s.series symbol tf;
  }

  unfoldable pub purge_candles : String → CandleStore F → CandleStore F
  purge_candles symbol s = record { series = λ t tf. if str_eq symbol t then [] else s.series t tf }

  unfoldable pub get_candles : String → Timeframe → ℕ → CandleStore F → List (Candle F)
  get_candles symbol tf limit s = last_of limit (s.series symbol tf)
