-- ===== src/Market/Funding/Top.antt =====
-- FundingCache.TopNegative of internal/market/funding_cache.go: a ranking of the negative rates.
use binance_futures.Base.{ℕ, ◌≡◌, refl, List, map, keep, take}
use binance_futures.Base.Sorting.{Sorter, IsSort, IsStrictWeak}
use binance_futures.Base.Sorting.Ranked.{Ranked, take-sort-Ranked}
use binance_futures.Float64.{Float64}
use binance_futures.Market.Funding.{FundingEntry, more_negative, is_negative, top_negative}

module _ {F : Type 0} ⦃f : Float64 F⦄ where
  -- For a sort that is one and rates that `<` orders weakly (none is NaN), the symbols of
  -- `TopNegative(n)` are those of the `n` entries that a ranking of the negative rates begins with, or
  -- of all of them where they are no more than `n`.
  pub top_negative-Ranked :
      (s : Sorter (FundingEntry F))
      → IsSort s
      → IsStrictWeak (more_negative {F = F})
      → (n : ℕ) (es : List (FundingEntry F))
      → (top : List (FundingEntry F)) × (top_negative s n es ≡ map (λ e. e.symbol) top)
        × Ranked more_negative n (keep is_negative es) top
  unfolding top_negative
  top_negative-Ranked s h weak n es = (
    take n (s.sort more_negative (keep is_negative es)),
    refl,
    take-sort-Ranked s h more_negative weak n (keep is_negative es),
  )
