-- ===== src/Market/Funding.antt =====
-- internal/market/funding_cache.go. The map is an association list in the order of an iteration.
pub mod Top
use Prim.Native.String.{String}
use text.Mathlib.Text.{◌==◌ as str_eq}
use binance_futures.Base.{
  ℕ, Bool, Option, none, some, List, [], ◌∷◌, map, keep, take, ltb, ◌==◌, if◌then◌else◌,
}
use binance_futures.Base.Sorting.{Sorter}
use binance_futures.Float64.{Float64, nought}
use binance_futures.Domain.{FundingRate}

-- `symbol` is the entry's key.
pub record FundingEntry (F : Type 0) : Type 0 where
  pub symbol : String
  pub rate : F
  pub next_funding : Option ℕ
  pub mark_price : F
  pub updated_at : ℕ
  pub interval_hours : ℕ

-- The hours as they are stored: 0 stands for 4.
abbrev pub stored_hours : ℕ → ℕ
stored_hours hours = if hours == 0 then 4 else hours

module _ {F : Type 0} where
  abbrev pub find_funding : String → List (FundingEntry F) → Option (FundingEntry F)
  find_funding s [] = none
  find_funding s (e ∷ es) = if str_eq e.symbol s then some e else find_funding s es

  -- The entry of the key is changed, or a new one is put in.
  abbrev pub change_funding :
      String
      → (FundingEntry F → FundingEntry F)
      → FundingEntry F
      → List (FundingEntry F)
      → List (FundingEntry F)
  change_funding s change fresh [] = fresh ∷ []
  change_funding s change fresh (e ∷ es) =
      if str_eq e.symbol s then change e ∷ es else e ∷ change_funding s change fresh es

  -- `Update`, with `updatedAt` read from the clock.
  unfoldable pub update_funding :
      String → F → Option ℕ → F → ℕ → List (FundingEntry F) → List (FundingEntry F)
  update_funding symbol rate next mark now es =
      change_funding symbol
        (λ e. record e { rate = rate; next_funding = next; mark_price = mark; updated_at = now })
        (record {
          symbol = symbol;
          rate = rate;
          next_funding = next;
          mark_price = mark;
          updated_at = now;
          interval_hours = 0;
        })
        es

  -- The hours of a symbol without a usable entry are 8.
  unfoldable pub get_interval_hours : String → List (FundingEntry F) → ℕ
  get_interval_hours symbol es = elim (find_funding symbol es) [
    | none ↦ 8
    | some e ↦ if ltb 0 e.interval_hours then e.interval_hours else 8
  ]

  abbrev pub get_rate : String → List (FundingEntry F) → Option F
  get_rate symbol es = elim (find_funding symbol es) [ none ↦ none | some e ↦ some e.rate ]

  abbrev pub get_info : String → List (FundingEntry F) → Option (FundingRate F)
  get_info symbol es = elim (find_funding symbol es) [
    | none ↦ none
    | some e ↦ some (record {
      symbol = symbol;
      rate = e.rate;
      next_funding = e.next_funding;
      mark_price = e.mark_price;
      updated_at = e.updated_at;
    })
  ]

  abbrev pub get_all : List (FundingEntry F) → List (String × F)
  get_all es = map (λ e. (e.symbol, e.rate)) es

module _ {F : Type 0} ⦃f : Float64 F⦄ where
  open f use {lt}

  unfoldable pub set_funding_interval : String → ℕ → List (FundingEntry F) → List (FundingEntry F)
  set_funding_interval symbol hours es =
      change_funding symbol (λ e. record e { interval_hours = stored_hours hours })
        (record {
          symbol = symbol;
          rate = nought;
          next_funding = none;
          mark_price = nought;
          updated_at = 0;
          interval_hours = stored_hours hours;
        })
        es

  abbrev pub more_negative : FundingEntry F → FundingEntry F → Bool
  more_negative a b = lt a.rate b.rate

  abbrev pub is_negative : FundingEntry F → Bool
  is_negative e = lt e.rate nought

  module _ (s : Sorter (FundingEntry F)) where
    unfoldable pub top_negative : ℕ → List (FundingEntry F) → List String
    top_negative n es = map (λ e. e.symbol) (take n (s.sort more_negative (keep is_negative es)))
