-- ===== src/Scanner.antt =====
-- internal/scanner: the candidates that the market offers for the next settlement. What the scanner
-- reads of the market is a `MarketProvider`. Times are nanoseconds; `now` is the clock's.
pub mod Eligible
mod Tests
use Prim.Native.String.{String, len, slice}
use text.Mathlib.Text.{◌==◌ as str_eq}
use binance_futures.Base.{
  ℕ, ◌+◌, ◌-◌, ◌*◌, Bool, false, true, not, ◌&&◌, ◌||◌, Option, none, some, List, [], ◌∷◌, length,
  keep, take, last_of, ltb, leb, ◌==◌, if◌then◌else◌,
}
use binance_futures.Base.Int.{pos}
use binance_futures.Base.Sorting.{Sorter}
use binance_futures.Float64.{Float64, nought, hundred}
use binance_futures.Domain.{Candidate, Candle, FundingRate, Timeframe}
use binance_futures.Market.Engine.{MarketProvider}

pub record FundingConfig (F : Type 0) : Type 0 where
  pub min_rate : F
  pub max_rate : F
  pub top_candidates : ℕ

-- `strings.HasSuffix`.
abbrev pub has_suffix : String → String → Bool
has_suffix s suffix =
    if leb (len suffix) (len s) then str_eq (slice s (len s - len suffix) (len s)) suffix else false

abbrev pub minute : ℕ
minute = 60 * 1_000_000_000

-- The settlement is at most 30 minutes ahead and at most one minute ago.
abbrev pub in_window : ℕ → Option ℕ → Bool
in_window now none = true
in_window now (some next) = leb next (now + 30 * minute) && leb now (next + minute)

module _ {F : Type 0} where
  abbrev pub is_closed_candle : Candle F → Bool
  is_closed_candle c = c.is_closed

  abbrev pub first_of : List (Candle F) → Option (Candle F)
  first_of [] = none
  first_of (c ∷ _) = some c

  -- `append`, unless the symbol is dropped. Candidates stand in the order of the iteration.
  abbrev pub with_candidate : Option (Candidate F) → List (Candidate F) → List (Candidate F)
  with_candidate none cs = cs
  with_candidate (some c) cs = c ∷ cs

  -- The sixth closed candle, counted from the latest.
  abbrev pub sixth_closed : List (Candle F) → Option (Candle F)
  sixth_closed cs =
      let closed = keep is_closed_candle cs in
      if ltb (length closed) 6 then none else first_of (last_of 6 closed)

  abbrev pub settlement_aligned_with_window : MarketProvider F → String → ℕ → Bool
  settlement_aligned_with_window m symbol now = elim (m.funding_info symbol) [
    | none ↦ true
    | some info ↦ in_window now info.next_funding
  ]

module _ {F : Type 0} ⦃f : Float64 F⦄ where
  open f use {lit, add, sub, mul, div, lt, le, eq}

  -- The latest closed candle that opened away from 0.
  abbrev pub last_usable : List (Candle F) → Option (Candle F)
  last_usable [] = none
  last_usable (c ∷ cs) = elim (last_usable cs) [
    | some later ↦ some later
    | none ↦ if c.is_closed && not (eq c.opening nought) then some c else none
  ]

  -- `(to - from) / from * 100`
  abbrev pub roi : F → F → F
  roi to from = mul (div (sub to from) from) hundred

  abbrev pub calc_price_roi : MarketProvider F → String → Timeframe → F
  calc_price_roi m symbol tf = elim (last_usable (m.candles symbol tf 2)) [
    | none ↦ nought
    | some c ↦ roi c.close c.opening
  ]

  abbrev pub calc_24h_roi : MarketProvider F → String → F → F
  calc_24h_roi m symbol price = elim (sixth_closed (m.candles symbol Timeframe.h4 7)) [
    | none ↦ nought
    | some c ↦ if eq c.close nought then nought else roi price c.close
  ]

  -- The latest is added first.
  abbrev pub volume_sum : List (Candle F) → F
  volume_sum [] = nought
  volume_sum (c ∷ cs) = add (volume_sum cs) c.volume

  abbrev pub calc_24h_volume : MarketProvider F → String → F
  calc_24h_volume m symbol =
      volume_sum (last_of 24 (keep is_closed_candle (m.candles symbol Timeframe.h1 25)))

  unfoldable pub build_candidate : MarketProvider F → String → F → F → Candidate F
  build_candidate m symbol rate price = record {
    symbol = symbol;
    funding_rate = rate;
    mark_price = price;
    daily_roi = calc_24h_roi m symbol price;
    roi_1d = calc_24h_roi m symbol price;
    roi_4h = calc_price_roi m symbol Timeframe.h4;
    roi_1h = calc_price_roi m symbol Timeframe.h1;
    volume_24h = calc_24h_volume m symbol;
    score = rate;
  }

  abbrev pub filter_by_roi : F → List (Candidate F) → List (Candidate F)
  filter_by_roi min_roi_pct cs = keep (λ c. le min_roi_pct c.roi_1d) cs

  -- The threshold is in millions.
  abbrev pub filter_by_volume : F → List (Candidate F) → List (Candidate F)
  filter_by_volume threshold_m cs =
      let raw = mul threshold_m (lit (pos 1_000_000) 0) in keep (λ c. le raw c.volume_24h) cs

  abbrev pub lower_rate : Candidate F → Candidate F → Bool
  lower_rate a b = lt a.funding_rate b.funding_rate

  module _ (cfg : FundingConfig F) (m : MarketProvider F) (now : ℕ) where
    -- The tests after the price is known.
    abbrev pub admit_at : String → F → F → Option (Candidate F)
    admit_at symbol rate price =
        if le price nought
        then none
        else if m.funding_interval_hours symbol == 1
        then none
        else if not (settlement_aligned_with_window m symbol now)
        then none
        else some (build_candidate m symbol rate price)

    -- The body of the loop for one symbol: none is `continue`.
    unfoldable pub admit : String → F → Option (Candidate F)
    admit symbol rate =
        if has_suffix symbol "USDC"
        then none
        else if lt cfg.max_rate rate || lt rate cfg.min_rate
        then none
        else elim (m.price symbol) [ none ↦ none | some price ↦ admit_at symbol rate price ]

    abbrev pub collect : List (String × F) → List (Candidate F)
    collect [] = []
    collect ((symbol, rate) ∷ rates) = with_candidate (admit symbol rate) (collect rates)

    abbrev pub scan_rates : Sorter (Candidate F) → List (String × F) → List (Candidate F)
    scan_rates s [] = []
    scan_rates s (r ∷ rates) = take cfg.top_candidates (s.sort lower_rate (collect (r ∷ rates)))

    unfoldable pub scan : Sorter (Candidate F) → List (Candidate F)
    scan s = scan_rates s m.all_funding_rates
