-- ===== src/Scanner/Eligible.antt =====
-- FundingScanner.Scan of internal/scanner/funding_scanner.go: which candidates it gives, and in which order.
use Prim.Native.String.{String}
use mathlib.Core.List.{Memᴰ}
use mathlib.Core.Path.{subst}
use mathlib.Core.Option.{some-injective}
use binance_futures.Base.{
  ℕ, ◌+◌, ◌≤◌, ◌↔◌, inl, inr, Option-cases, ◌≡◌, ◌≢◌, refl, guard-some, bind-some, ◌||◌, ◌==◌, not,
  true, false, some, List, [], ◌∷◌, Option, none, All, All-take, arith,
}
use binance_futures.Base.Sorting.{Sorter, IsSort, All-perm}
use binance_futures.Base.Sorting.Ranked.{Ranked}
use binance_futures.Float64.{Float64, nought}
use binance_futures.Domain.{Candidate, FundingRate}
use binance_futures.Market.Engine.{MarketProvider}
use binance_futures.Scanner.{
  FundingConfig, in_window, has_suffix, settlement_aligned_with_window, admit_at, admit, collect,
  lower_rate, with_candidate, scan_rates, scan, build_candidate,
}

module _ {F : Type 0} ⦃f : Float64 F⦄ (cfg : FundingConfig F) (m : MarketProvider F) (now : ℕ) where
  open f use {lt, le}

  -- `c` may be traded: its rate is within the bounds, its price is positive, it does not settle every
  -- hour or in USDC, and its settlement, if it is known, is at most 30 minutes ahead and at most one
  -- minute ago.
  pub record Eligible (c : Candidate F) : Type 0 where
    pub quote : has_suffix c.symbol "USDC" ≡ false
    pub not_above : lt cfg.max_rate c.funding_rate ≡ false
    pub not_below : lt c.funding_rate cfg.min_rate ≡ false
    pub priced : m.price c.symbol ≡ some c.mark_price
    pub positive : le c.mark_price nought ≡ false
    pub not_hourly : m.funding_interval_hours c.symbol ≢ 1
    pub near :
        (info : FundingRate F) (next : ℕ)
        → m.funding_info c.symbol ≡ some info
        → info.next_funding ≡ some next
        → (next ≤ now + 1_800_000_000_000) × (now ≤ next + 60_000_000_000)

  in_window-near :
      (o : Option ℕ)
      → (in_window now o ≡ true) ↔ (
          (next : ℕ)
          → o ≡ some next
          → (next ≤ now + 1_800_000_000_000) × (now ≤ next + 60_000_000_000))
  in_window-near none = (λ h next e. cc, λ h. refl)
  in_window-near (some a) = (λ h next e. ground (arith, h, e), λ h. ground (arith, h a refl))

  -- The test of the settlement, by what is known of it.
  window_test :
      (symbol : String)
      → (settlement_aligned_with_window m symbol now ≡ true) ↔ (
          (info : FundingRate F) (next : ℕ)
          → m.funding_info symbol ≡ some info
          → info.next_funding ≡ some next
          → (next ≤ now + 1_800_000_000_000) × (now ≤ next + 60_000_000_000))
  window_test symbol = elim (Option-cases (m.funding_info symbol)) [
    | inl n ↦ (λ h info next e. cc, λ h. rw (settlement_aligned_with_window, n) refl)
    | inr (info, k) ↦ (
      λ h i next e g.
          (in_window-near info.next_funding).0 (rw (settlement_aligned_with_window, k) at h) next
            (cc),
      λ h.
          rw (settlement_aligned_with_window, k)
            ((in_window-near info.next_funding).1 (λ next g. h info next k g)),
    )
  ]

  admit_at-Eligible :
      (symbol : String) (rate price : F) (c : Candidate F)
      → has_suffix symbol "USDC" ≡ false
      → lt cfg.max_rate rate || lt rate cfg.min_rate ≡ false
      → m.price symbol ≡ some price
      → admit_at cfg m now symbol rate price ≡ some c
      → Eligible c
  unfolding build_candidate
  admit_at-Eligible symbol rate price c quote within priced h =
      let (positive, h₁) = guard-some (le price nought) _ c h in
      let (interval, h₂) = guard-some (m.funding_interval_hours symbol == 1) _ c h₁ in
      let (near, made) = guard-some (not (settlement_aligned_with_window m symbol now)) _ c h₂ in
      subst Eligible (some-injective (build_candidate m symbol rate price) c made) record {
        quote = quote;
        not_above = ground (arith, within);
        not_below = ground (arith, within);
        priced = priced;
        positive = positive;
        not_hourly = λ e. absurd (ground (arith, e, interval));
        near = (window_test symbol).0 (ground (arith, near));
      }

  admit-Eligible :
      (symbol : String) (rate : F) (c : Candidate F)
      → admit cfg m now symbol rate ≡ some c
      → Eligible c
  unfolding admit
  admit-Eligible symbol rate c h =
      let (quote, h₁) = guard-some (has_suffix symbol "USDC") _ c h in
      let (within, h₂) = guard-some (lt cfg.max_rate rate || lt rate cfg.min_rate) _ c h₁ in
      let (price, priced, h₃) = bind-some (m.price symbol) (admit_at cfg m now symbol rate) c h₂ in
      admit_at-Eligible symbol rate price c quote within priced h₃

  with_candidate-Eligible :
      (o : Option (Candidate F)) (cs : List (Candidate F))
      → ((c : Candidate F) → o ≡ some c → Eligible c)
      → All Eligible cs
      → All Eligible (with_candidate o cs)
  with_candidate-Eligible none cs made h = h
  with_candidate-Eligible (some c) cs made h = (made c refl, h)

  collect-Eligible : (rates : List (String × F)) → All Eligible (collect cfg m now rates)
  collect-Eligible [] = tt
  collect-Eligible ((symbol, rate) ∷ rates) =
      with_candidate-Eligible (admit cfg m now symbol rate) (collect cfg m now rates)
        (admit-Eligible symbol rate) (collect-Eligible rates)

  -- The candidate is made of one of the rates, at a price.
  pub Stems : List (String × F) → Candidate F → Type 0
  Stems rates c =
      (symbol : String) × (rate : F) × (price : F) × Memᴰ (symbol, rate) rates
      × (c ≡ build_candidate m symbol rate price)

  scan_rates-Eligible :
      (s : Sorter (Candidate F))
      → IsSort s
      → (rates : List (String × F)) → All Eligible (scan_rates cfg m now s rates)
  scan_rates-Eligible s h [] = tt
  scan_rates-Eligible s h (r ∷ rates) =
      let found = collect cfg m now (r ∷ rates) in
      All-take Eligible cfg.top_candidates (s.sort lower_rate found)
        (All-perm Eligible (h.permutes lower_rate found) (collect-Eligible (r ∷ rates)))

  pub scan-Eligible : (s : Sorter (Candidate F)) → IsSort s → All Eligible (scan cfg m now s)
  unfolding scan
  scan-Eligible s h = scan_rates-Eligible s h m.all_funding_rates
