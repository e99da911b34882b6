-- ===== src/Indicators/Snapshot.antt =====
-- `Compute` and `avgVolume` of internal/indicator/indicator.go.
use Prim.Native.String.{String}
use binance_futures.Base.{
  ℕ, Bool, true, false, ◌&&◌, Option, none, some, List, [], ◌∷◌, ◌++◌, length, leb, ltb,
  if◌then◌else◌,
}
use binance_futures.Base.Int.{pos}
use binance_futures.Float64.{Float64, nought}
use binance_futures.Domain.{Candle, CandleSignal, IndicatorSnapshot, RsiDivergence, Timeframe}
use binance_futures.Market.OpenInterest.{OiCache, DeltaResult, delta}
use binance_futures.Indicators.Averages.{
  rsi, atr, atr_ratio as ratio_of, count_of, volume_anomaly, volume_total,
}
use binance_futures.Indicators.Bearish.{detect_patterns}
use binance_futures.Indicators.Bullish.{detect_bullish_patterns}
use binance_futures.Indicators.Btc.{value_or}
use binance_futures.Indicators.Divergence.{detect_rsi_divergence}

-- The still-forming candle is dropped, unless it is the only one.
abbrev pub without_last {ℓ} : {A : Type ℓ} → List A → List A
without_last [] = []
without_last (x ∷ []) = []
without_last (x ∷ y ∷ xs) = x ∷ without_last (y ∷ xs)

abbrev pub closed_of {ℓ} : {A : Type ℓ} → List A → List A
closed_of xs = if ltb 1 (length xs) then without_last xs else xs

-- Whether the bullish patterns of a timeframe are looked for.
abbrev pub is_higher : Timeframe → Bool
is_higher Timeframe.h1 = true
is_higher Timeframe.m30 = true
is_higher Timeframe.m15 = true
is_higher _ = false

abbrev pub pattern_timeframes : List Timeframe
pattern_timeframes = Timeframe.h1 ∷ Timeframe.m30 ∷ Timeframe.m15 ∷ Timeframe.m5 ∷ []

abbrev pub with_divergence : Option RsiDivergence → List RsiDivergence → List RsiDivergence
with_divergence none ds = ds
with_divergence (some d) ds = d ∷ ds

module _ {F : Type 0} ⦃f : Float64 F⦄ where
  open f use {lit, div, lt, le}

  abbrev pub avg_volume : List (Candle F) → F
  avg_volume [] = nought
  avg_volume (c ∷ cs) = div (volume_total nought (c ∷ cs)) (count_of (length (c ∷ cs)))

  abbrev pub close_of_last : List (Candle F) → F
  close_of_last [] = nought
  close_of_last (c ∷ []) = c.close
  close_of_last (_ ∷ c ∷ cs) = close_of_last (c ∷ cs)

  -- A value that stays 0 without enough candles.
  abbrev pub enough : ℕ → List (Candle F) → F → F
  enough n cs value = if leb n (length cs) then value else nought

  abbrev pub change_or : DeltaResult F → F
  change_or (DeltaResult.change d) = d
  change_or _ = nought

  -- `source` is `GetCandles` of the symbol; `oi` is none without a history.
  module _ (source : Timeframe → ℕ → List (Candle F)) (oi : Option (OiCache F)) (now : ℕ) where
    abbrev pub oi_delta : String → ℕ → F
    oi_delta symbol window = elim oi [
      | none ↦ nought
      | some c ↦ change_or (delta symbol window now c)
    ]

    abbrev pub patterns_over : F → List Timeframe → List CandleSignal
    patterns_over atr_1h [] = []
    patterns_over atr_1h (tf ∷ tfs) =
        let closed = closed_of (source tf 100) in
        detect_patterns tf (avg_volume closed) closed ++ patterns_over atr_1h tfs

    abbrev pub bullish_over : F → List Timeframe → List CandleSignal
    bullish_over atr_1h [] = []
    bullish_over atr_1h (tf ∷ tfs) =
        let closed = closed_of (source tf 100) in
        let rest = bullish_over atr_1h tfs in
        if is_higher tf
        then detect_bullish_patterns tf atr_1h (avg_volume closed) closed ++ rest
        else rest

    abbrev pub divergence_on : Timeframe → Option RsiDivergence
    divergence_on tf =
        let raw = source tf 105 in
        if ltb 1 (length raw) then detect_rsi_divergence (without_last raw) tf else none

    unfoldable pub compute : String → IndicatorSnapshot F
    compute symbol =
        let c15 = source Timeframe.m15 40 in
        let c5 = source Timeframe.m5 20 in
        let c1h = source Timeframe.h1 20 in
        let rsi_15m = enough 15 c15 (value_or (rsi c15 14)) in
        let rsi_5m = enough 8 c5 (value_or (rsi c5 7)) in
        let atr_1h = enough 15 c1h (value_or (atr c1h 14)) in
        let anomaly = volume_anomaly c5 in
        let oi_1h = oi_delta symbol 3_600_000_000_000 in
        let oi_15m = oi_delta symbol 900_000_000_000 in
        record {
          symbol = symbol;
          timestamp = now;
          rsi14_15m = rsi_15m;
          rsi7_5m = rsi_5m;
          oi_delta_1h = oi_1h;
          oi_delta_15m = oi_15m;
          atr14_1h = atr_1h;
          atr_ratio = enough 15 c1h (ratio_of atr_1h (close_of_last c1h));
          vol_change_5m = anomaly.0;
          volume_spike = anomaly.1;
          patterns = patterns_over atr_1h pattern_timeframes;
          bullish_patterns = bullish_over atr_1h pattern_timeframes;
          rsi_divergences =
              with_divergence (divergence_on Timeframe.h1)
                (with_divergence (divergence_on Timeframe.m15) []);
          momentum_loss =
              lt rsi_15m (lit (pos 50) 0) && lt rsi_5m (lit (pos 50) 0) && le oi_1h nought;
          bullish_momentum =
              lt (lit (pos 57) 0) rsi_15m && lt (lit (pos 57) 0) rsi_5m && lt (lit (pos 5) 0) oi_1h;
          bearish_momentum_weak =
              lt (lit (pos 55) 0) rsi_15m && lt rsi_5m (lit (pos 50) 0) && lt oi_15m nought;
        }
