-- ===== src/Indicators/Btc.antt =====
-- ComputeBTCContext of internal/indicator/btc.go.
use Prim.Native.String.{String}
use mathlib.Core.List.{reverse}
use binance_futures.Base.{
  ℕ, suc, Bool, false, ◌&&◌, Option, none, some, List, ◌∷◌, length, ltb, leb, if◌then◌else◌,
}
use binance_futures.Base.Int.{ℤ, pos, negsuc, ltb_ℤ}
use binance_futures.Float64.{Float64, nought, hundred}
use binance_futures.Domain.{Candle, BtcContext, Trend}
use binance_futures.Indicators.Averages.{rsi, atr, atr_ratio, ema, volume_anomaly}

abbrev pub vote : Bool → ℕ → ℕ
vote b n = if b then suc n else n

-- The trend of three votes each way.
abbrev pub trend_of : ℕ → ℕ → Trend
trend_of bull bear =
    if leb 2 bull then Trend.bullish else if leb 2 bear then Trend.bearish else Trend.neutral

module _ {F : Type 0} ⦃f : Float64 F⦄ where
  open f use {lit, to_int, sub, mul, div, abs, lt}

  abbrev pub change_pct : F → F → F
  change_pct to from = mul (div (sub to from) from) hundred

  abbrev pub value_or : Option F → F
  value_or none = nought
  value_or (some x) = x

  abbrev pub btc_trend : F → F → F → F → Trend
  btc_trend index slope ema9 ema21 =
      trend_of
        (vote (lt (lit (pos 55) 0) index)
          (vote (lt (lit (pos 3) 1) slope) (vote (lt ema21 ema9) 0)))
        (vote (lt index (lit (pos 45) 0))
          (vote (lt slope (lit (negsuc 2) 1)) (vote (lt ema9 ema21) 0)))

  abbrev pub momentum_of : F → ℤ
  momentum_of index =
      let momentum = to_int (mul (abs (sub index (lit (pos 50) 0))) (lit (pos 2) 0)) in
      if ltb_ℤ (pos 100) momentum then pos 100 else momentum

  abbrev pub volatility_of : F → String
  volatility_of ratio =
      if lt (lit (pos 3) 0) ratio
      then "high"
      else if lt (lit (pos 15) 1) ratio
      then "medium"
      else "low"

  -- The change of the last 15m candle and whether it is a breakout, of the candles latest first.
  abbrev pub breakout_recent : List (Candle F) → List (Candle F) → F × Bool
  breakout_recent candles_15m (last ∷ prev ∷ _) =
      let change = change_pct last.close prev.close in
      (change, lt (lit (pos 8) 1) (abs change) && (volume_anomaly candles_15m).1)
  breakout_recent candles_15m _ = (nought, false)

  abbrev pub btc_context_recent :
      List (Candle F) → List (Candle F) → List (Candle F) → Option (BtcContext F)
  btc_context_recent candles_1h candles_15m (last ∷ prev ∷ _ ∷ base ∷ _) =
      let index = value_or (rsi candles_1h 14) in
      let breakout = breakout_recent candles_15m (reverse candles_15m) in
      some (record {
        trend =
            btc_trend index (change_pct last.close base.close) (ema candles_1h 9)
              (ema candles_1h 21);
        momentum_score = momentum_of index;
        volatility = volatility_of (atr_ratio (value_or (atr candles_1h 14)) last.close);
        rsi14_1h = index;
        price_change_1h = change_pct last.close prev.close;
        price_change_15m = breakout.0;
        is_breakout = breakout.1;
      })
  btc_context_recent candles_1h candles_15m _ = none

  -- None is the error of fewer than 22 candles.
  unfoldable pub compute_btc_context : List (Candle F) → List (Candle F) → Option (BtcContext F)
  compute_btc_context candles_1h candles_15m =
      if ltb (length candles_1h) 22
      then none
      else btc_context_recent candles_1h candles_15m (reverse candles_1h)
