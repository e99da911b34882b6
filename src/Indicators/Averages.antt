-- ===== src/Indicators/Averages.antt =====
-- internal/indicator: rsi.go, atr.go, volume.go, and the exponential average and the trend of btc.go.
-- Candles stand oldest first. A missing value is an error of the source.
use mathlib.Core.List.{reverse}
use binance_futures.Base.{
  ℕ, ◌+◌, ◌-◌, Bool, false, Option, none, some, List, [], ◌∷◌, length, take, drop, last_of, ltb,
  if◌then◌else◌,
}
use binance_futures.Base.Int.{pos}
use binance_futures.Float64.{Float64, nought, hundred}
use binance_futures.Domain.{Candle}

module _ {F : Type 0} ⦃f : Float64 F⦄ where
  open f use {lit, of_int, to_int, add, sub, mul, div, neg, abs, maximum, lt, eq}

  abbrev pub count_of : ℕ → F
  count_of n = of_int (pos n)

  -- `f` of every candle and the one before it, in the order of the candles.
  abbrev pub steps : (Candle F → Candle F → F) → List (Candle F) → List F
  steps g [] = []
  steps g (c ∷ []) = []
  steps g (c ∷ d ∷ cs) = g c d ∷ steps g (d ∷ cs)

  -- The sum from the first on.
  abbrev pub sum_from : F → List F → F
  sum_from total [] = total
  sum_from total (x ∷ xs) = sum_from (add total x) xs

  -- Wilder's smoothing of `xs` after the average `avg`.
  abbrev pub smooth : ℕ → F → List F → F
  smooth period avg [] = avg
  smooth period avg (x ∷ xs) =
      smooth period (div (add (mul avg (count_of (period - 1))) x) (count_of period)) xs

  -- The average of the first `period` values, and the rest smoothed in.
  abbrev pub wilder : ℕ → List F → F
  wilder period xs =
      smooth period (div (sum_from nought (take period xs)) (count_of period)) (drop period xs)

  abbrev pub true_range : Candle F → Candle F → F
  true_range before c =
      maximum (sub c.high c.low)
        (maximum (abs (sub c.high before.close)) (abs (sub c.low before.close)))

  pub atr : List (Candle F) → ℕ → Option F
  atr candles period =
      if ltb (length candles) (period + 1)
      then none
      else some (wilder period (steps true_range candles))

  abbrev pub atr_ratio : F → F → F
  atr_ratio atr price = if eq price nought then nought else mul (div atr price) hundred

  -- The sums of the gains and of the losses.
  abbrev pub sum_changes : F × F → List F → F × F
  sum_changes sums [] = sums
  sum_changes (gain, loss) (x ∷ xs) =
      sum_changes (if lt nought x then (add gain x, loss) else (gain, add loss (neg x))) xs

  -- `avg` of `period` values less one of them.
  abbrev pub faded : ℕ → F → F
  faded period avg = mul avg (count_of (period - 1))

  abbrev pub smooth_changes : ℕ → F × F → List F → F × F
  smooth_changes period avgs [] = avgs
  smooth_changes period (gain, loss) (x ∷ xs) =
      smooth_changes period
        (if lt nought x
          then (
            div (add (faded period gain) x) (count_of period),
            div (faded period loss) (count_of period),
          )
          else (
            div (faded period gain) (count_of period),
            div (add (faded period loss) (neg x)) (count_of period),
          ))
        xs

  abbrev pub averaged : ℕ → F × F → F × F
  averaged period (gain, loss) = (div gain (count_of period), div loss (count_of period))

  abbrev pub strength_index : F × F → F
  strength_index (gain, loss) =
      if eq loss nought
      then hundred
      else sub hundred (div hundred (add (lit (pos 1) 0) (div gain loss)))

  abbrev pub close_changes : List (Candle F) → List F
  close_changes = steps (λ before c. sub c.close before.close)

  unfoldable pub rsi : List (Candle F) → ℕ → Option F
  rsi candles period =
      if ltb (length candles) (period + 1)
      then none
      else some (
          strength_index (
            smooth_changes period
              (averaged period (sum_changes (nought, nought) (take period (close_changes candles))))
              (drop period (close_changes candles))))

  abbrev pub volume_total : F → List (Candle F) → F
  volume_total total [] = total
  volume_total total (c ∷ cs) = volume_total (add total c.volume) cs

  -- The ratio, and whether it is a spike.
  abbrev pub anomaly : F → F → F × Bool
  anomaly current avg =
      if eq avg nought
      then (lit (pos 1) 0, false)
      else (div current avg, lt (lit (pos 2) 0) (div current avg))

  abbrev pub anomaly_of : Candle F → List (Candle F) → F × Bool
  anomaly_of c window =
      anomaly c.volume (div (volume_total nought window) (count_of (length window)))

  -- The last candle against up to 24 before it, latest first.
  abbrev pub anomaly_recent : List (Candle F) → F × Bool
  anomaly_recent (c ∷ d ∷ cs) = anomaly_of c (reverse (take 24 (d ∷ cs)))
  anomaly_recent _ = (lit (pos 1) 0, false)

  pub volume_anomaly : List (Candle F) → F × Bool
  volume_anomaly candles = anomaly_recent (reverse candles)

  abbrev pub ema_step : F → F → List (Candle F) → F
  ema_step k val [] = val
  ema_step k val (c ∷ cs) = ema_step k (add (mul c.close k) (mul val (sub (lit (pos 1) 0) k))) cs

  abbrev pub ema_from : ℕ → List (Candle F) → F
  ema_from period [] = nought
  ema_from period (c ∷ cs) = ema_step (div (lit (pos 2) 0) (count_of (period + 1))) c.close cs

  -- Of at least `period` candles: `ComputeBTCContext` has 22 or more.
  abbrev pub ema : List (Candle F) → ℕ → F
  ema candles period = ema_from period (last_of period candles)
