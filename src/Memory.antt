-- ===== src/Memory.antt =====
-- internal/memory: the buckets of feature_builder.go, and `FindSimilar` of retriever.go, of the trades
-- that the repository found. A time is in nanoseconds since 1970, in UTC.
pub mod Retrieved
mod Tests
use Prim.Native.String.{String}
use text.Mathlib.Text.{◌==◌ as str_eq}
use binance_futures.Base.{
  ℕ, suc, ◌+◌, ◌*◌, ◌/◌, ◌%◌, Bool, true, false, not, ◌&&◌, ◌||◌, Option, none, some, List, [], ◌∷◌,
  keep, map, take, ◌==◌, if◌then◌else◌,
}
use binance_futures.Base.Int.{ℤ, pos, negsuc, sub_ℕ, leb_ℤ}
use binance_futures.Base.Sorting.{Sorter}
use binance_futures.Float64.{Float64, hundred}
use binance_futures.Domain.{
  BtcContext, Candidate, IndicatorSnapshot, ModeWinRate, SimilarTrade, Trend,
}
use binance_futures.App.Restricted.{weekday}
use binance_futures.Scheduler.{day, hour, minute}

pub record RetrieverConfig (F : Type 0) : Type 0 where
  pub top_similar : ℤ
  pub min_similarity : F

-- What `FindSimilar` reads of a `MemorySearchResult`.
pub record TradeMemory (F : Type 0) : Type 0 where
  pub base_similarity : F
  pub outcome : String
  pub profit_pct : F
  pub lesson : String
  pub entry_mode : String
  pub funding_rate : F
  pub created_at : ℕ
  pub funding_bucket : ℤ
  pub daily_roi : F
  pub atr_ratio : F
  pub rsi14_15m : F
  pub rsi7_5m : F
  pub oi_delta_1h : F
  pub oi_delta_15m : F
  pub btc_regime : String

-- The answer; `crash` is the panic on a nil context, and on a slice up to a negative `TopSimilar`,
-- which is below every length.
pub data FindResult (F : Type 0) : Type 0 where
  failed crash : FindResult F
  retrieved : List (SimilarTrade F) → List (String × ModeWinRate) → FindResult F

abbrev pub day_of_week : ℕ → ℕ
day_of_week t = weekday (t / day)

abbrev pub funding_window_label : ℕ → ℕ
funding_window_label t =
    let h = t / hour % 24 in
    let m = t / minute % 60 in if (h % 4 == 0) && (m == 0) then h else (h / 4 + 1) * 4 % 24

abbrev pub strength_of : String → String → String → Bool → Bool → String
strength_of breakout strong weak is_breakout is_strong =
    if is_breakout then breakout else if is_strong then strong else weak

abbrev pub regime_of : Trend → Bool → ℤ → String
regime_of Trend.bullish is_breakout momentum =
    strength_of "BULLISH_BREAKOUT" "BULLISH_STRONG" "BULLISH_WEAK" is_breakout
      (leb_ℤ (pos 2) momentum)
regime_of Trend.bearish is_breakout momentum =
    strength_of "BEARISH_BREAKDOWN" "BEARISH_STRONG" "BEARISH_WEAK" is_breakout
      (leb_ℤ momentum (negsuc 1))
regime_of Trend.neutral is_breakout momentum = "NEUTRAL"

abbrev pub is_win : String → Bool
is_win outcome =
    str_eq outcome "WIN" || str_eq outcome "PARTIAL_WIN" || str_eq outcome "SKIP_MISSED"

abbrev pub is_loss : String → Bool
is_loss outcome =
    str_eq outcome "LOSS" || str_eq outcome "FORCE_SL" || str_eq outcome "SKIP_VALIDATED"

abbrev pub counted : String → ModeWinRate → ModeWinRate
counted outcome r =
    if is_win outcome
    then record r { wins = r.wins + 1; total = r.total + 1 }
    else if is_loss outcome
    then record r { losses = r.losses + 1; total = r.total + 1 }
    else record r { total = r.total + 1 }

abbrev pub no_trades : ModeWinRate
no_trades = record { wins = 0; losses = 0; total = 0 }

-- `stats[mode]` with one more outcome.
pub count_in : String → String → List (String × ModeWinRate) → List (String × ModeWinRate)
count_in mode outcome [] = (mode, counted outcome no_trades) ∷ []
count_in mode outcome ((m, r) ∷ stats) =
    let rest = count_in mode outcome stats in
    if str_eq m mode then (m, counted outcome r) ∷ stats else (m, r) ∷ rest

module _ {F : Type 0} ⦃f : Float64 F⦄ where
  open f use {lit, of_int, to_int, add, sub, mul, div, neg, lt, le}

  -- A `switch` whose cases are `x >= bound`.
  abbrev pub first_reached {ℓ} : {A : Type ℓ} → List (F × A) → A → F → A
  first_reached [] fallback x = fallback
  first_reached ((bound, label) ∷ cases) fallback x =
      let rest = first_reached cases fallback x in if le bound x then label else rest

  abbrev pub whole : ℕ → F
  whole n = lit (pos n) 0

  abbrev pub funding_bucket_of : F → ℤ
  funding_bucket_of rate_pct =
      first_reached
        ((lit (pos 15) 1, pos 5)
          ∷ (whole 1, pos 4)
          ∷ (lit (pos 6) 1, pos 3)
          ∷ (lit (pos 3) 1, pos 2)
          ∷ [])
        (pos 1) (neg rate_pct)

  abbrev pub roi_bucket : F → String
  roi_bucket =
      first_reached
        ((whole 75, "EXTREME")
          ∷ (whole 50, "VERY_HIGH")
          ∷ (whole 35, "HIGH")
          ∷ (whole 20, "MEDIUM")
          ∷ (whole 10, "BELOW_MEDIUM")
          ∷ (whole 3, "LOW")
          ∷ [])
        "VERY_LOW"

  abbrev pub rsi_bucket : F → String
  rsi_bucket =
      first_reached
        ((whole 80, "EXTREME_OVERBOUGHT")
          ∷ (whole 70, "OVERBOUGHT")
          ∷ (whole 55, "BULLISH")
          ∷ (whole 46, "NEUTRAL")
          ∷ (whole 31, "BEARISH")
          ∷ (whole 21, "OVERSOLD")
          ∷ [])
        "EXTREME_OVERSOLD"

  abbrev pub falling_bucket : F → String
  falling_bucket delta =
      if le delta (lit (negsuc 9) 0)
      then "EXTREME_FALLING"
      else if le delta (lit (negsuc 4) 0)
      then "STRONG_FALLING"
      else if le delta (lit (negsuc 1) 0)
      then "FALLING"
      else "FLAT"

  abbrev pub oi_delta_bucket : F → String
  oi_delta_bucket delta =
      first_reached
        ((whole 10, "EXTREME_RISING") ∷ (whole 5, "STRONG_RISING") ∷ (whole 2, "RISING") ∷ [])
        (falling_bucket delta) delta

  abbrev pub atr_bucket : F → String
  atr_bucket =
      first_reached
        ((whole 10, "EXTREME")
          ∷ (whole 7, "HIGH")
          ∷ (whole 5, "ELEVATED")
          ∷ (lit (pos 35) 1, "NORMAL")
          ∷ (whole 2, "BELOW_NORMAL")
          ∷ (whole 1, "LOW")
          ∷ [])
        "VERY_LOW"

  -- `time.Duration.Hours`.
  abbrev pub hours_of : ℕ → F
  hours_of n = add (of_int (pos (n / hour))) (div (of_int (pos (n % hour))) (of_int (pos hour)))

  abbrev pub signed_hours : ℤ → F
  signed_hours (pos n) = hours_of n
  signed_hours (negsuc n) = neg (hours_of (suc n))

  -- `if same { sim += bonus }`
  abbrev pub plus_if : Bool → F → F → F
  plus_if same bonus sim = if same then add sim bonus else sim

  module _ (ind : IndicatorSnapshot F) (b : BtcContext F) (c : Candidate F) (at_ : ℕ) where
    -- `sim`, from the base with its bonuses in the order of the code.
    pub similarity_of : TradeMemory F → F
    similarity_of t =
        let base = mul t.base_similarity (lit (pos 6) 1) in
        let s1 =
          plus_if
            (leb_ℤ t.funding_bucket (funding_bucket_of (mul c.funding_rate hundred))
              && leb_ℤ (funding_bucket_of (mul c.funding_rate hundred)) t.funding_bucket)
            (lit (pos 1) 1) base in
        let s2 =
          plus_if (str_eq (roi_bucket t.daily_roi) (roi_bucket c.daily_roi)) (lit (pos 8) 2) s1 in
        let s3 = plus_if (day_of_week t.created_at == day_of_week at_) (lit (pos 1) 2) s2 in
        let s4 =
          plus_if (funding_window_label t.created_at == funding_window_label at_) (lit (pos 15) 3)
            s3 in
        let s5 =
          plus_if (str_eq (atr_bucket t.atr_ratio) (atr_bucket ind.atr_ratio)) (lit (pos 6) 2) s4 in
        let s6 =
          plus_if (str_eq (rsi_bucket t.rsi14_15m) (rsi_bucket ind.rsi14_15m)) (lit (pos 5) 2) s5 in
        let s7 =
          plus_if (str_eq (rsi_bucket t.rsi7_5m) (rsi_bucket ind.rsi7_5m)) (lit (pos 3) 2) s6 in
        let s8 =
          plus_if (str_eq (oi_delta_bucket t.oi_delta_1h) (oi_delta_bucket ind.oi_delta_1h))
            (lit (pos 5) 2) s7 in
        let s9 =
          plus_if (str_eq (oi_delta_bucket t.oi_delta_15m) (oi_delta_bucket ind.oi_delta_15m))
            (lit (pos 3) 2) s8 in
        if str_eq t.btc_regime (regime_of b.trend b.is_breakout b.momentum_score)
        then s9
        else sub s9 (lit (pos 5) 2)

    -- `daysAgo` is the whole part of the hours by 24.
    abbrev pub similar_trade : ℕ → TradeMemory F → SimilarTrade F
    similar_trade now t = record {
      outcome = t.outcome;
      profit_pct = t.profit_pct;
      similarity = similarity_of t;
      lesson = t.lesson;
      days_ago = to_int (div (signed_hours (sub_ℕ now t.created_at)) (whole 24));
      entry_mode = t.entry_mode;
      funding_rate = t.funding_rate;
    }

    -- The loop over the results.
    abbrev pub scored : RetrieverConfig F → ℕ → List (TradeMemory F) → List (SimilarTrade F)
    scored cfg now ts =
        keep (λ s. not (lt s.similarity cfg.min_similarity))
          (map (similar_trade now) (keep (λ t. not (str_eq t.outcome "")) ts))

  abbrev pub more_similar : SimilarTrade F → SimilarTrade F → Bool
  more_similar a b = lt b.similarity a.similarity

  -- The counts of a map do not depend on the order of the trades.
  pub compute_mode_win_rates : F → List (SimilarTrade F) → List (String × ModeWinRate)
  compute_mode_win_rates least [] = []
  compute_mode_win_rates least (s ∷ ss) =
      let rest = compute_mode_win_rates least ss in
      if lt s.similarity least || str_eq s.entry_mode ""
      then rest
      else count_in s.entry_mode s.outcome rest

  -- `FindSimilar`, of the answer of the repository; `now` is the second reading of the clock.
  unfoldable pub find_similar :
      Sorter (SimilarTrade F)
      → RetrieverConfig F
      → Option (List (TradeMemory F))
      → IndicatorSnapshot F
      → Option (BtcContext F)
      → Candidate F
      → ℕ
      → ℕ
      → FindResult F
  find_similar s cfg none ind btc c at_ now = failed
  find_similar s cfg (some ts) ind none c at_ now = crash
  find_similar s cfg (some ts) ind (some b) c at_ now =
      let ranked = s.sort more_similar (scored ind b c at_ cfg now ts) in
      elim cfg.top_similar [
        | pos n ↦ retrieved (take n ranked) (compute_mode_win_rates (lit (pos 75) 2) ranked)
        | negsuc _ ↦ crash
      ]
