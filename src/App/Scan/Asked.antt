-- ===== src/App/Scan/Asked.antt =====
-- The candidates that a scan asks the language model about.
use Prim.Native.String.{String}
use mathlib.Core.Path.{subst}
use mathlib.Core.Option.{some-injective}
use text.Mathlib.Text.{◌==◌ as str_eq}
use text.Mathlib.TextEquality.{eq_iff}
use binance_futures.Base.{
  ◌≡◌, ◌≢◌, ◌∙◌, ap, sym, inl, inr, Bool, Bool-cases, true, false, not, ◌||◌, Option, none, some,
  List, [], ◌∷◌, All, All-keep, All-map, All-both, keep-All, keep, map, arith, if◌then◌else◌,
}
use binance_futures.Base.Int.{pos}
use binance_futures.Base.Sorting.{IsSort, All-perm}
use binance_futures.Float64.{Float64}
use binance_futures.Domain.{Balance, Candidate, IndicatorSnapshot, ScoredCandidate}
use binance_futures.Market.Engine.{provider}
use binance_futures.Risk.{active_symbols}
use binance_futures.Market.Books.{BookTicker}
use binance_futures.Execution.World.{World}
use binance_futures.Scanner.{filter_by_volume, scan as scan_market}
use binance_futures.Scanner.Eligible.{Eligible, scan-Eligible}
use binance_futures.Scheduler.{WindowType}
use binance_futures.Scoring.Composite.{score}
use binance_futures.App.Asking.{Orders, score_candidate}
use binance_futures.App.Filters.{
  filter_cooldown_symbols, drop_occupied, filter_books, filter_by_balance, min_ask_liquidity,
  filter_occupied_symbols, filter_thin_order_book, is_free, is_occupied, seeded_books,
}
use binance_futures.App.Gates.{has_reversal_evidence, higher_score, is_fresh, select}
use binance_futures.App.Scan.{fresh_of}
use binance_futures.App.State.{Inputs, Moment, ScanConfig}

module _ {F : Type 0} where
  All-if :
      (P : Candidate F → Type 0) (b : Bool) (xs ys : List (Candidate F))
      → All P xs
      → All P ys
      → All P (if b then xs else ys)
  All-if P true xs ys a b = a
  All-if P false xs ys a b = b

  -- No position of those read is on the candidate's symbol.
  abbrev pub Free : Option (List String) → Candidate F → Type 0
  Free none c = Unit
  Free (some symbols) c = is_occupied symbols c.symbol ≡ false

  drop_occupied-Free :
      (r : Option (List String)) (cs : List (Candidate F)) → All (Free r) (drop_occupied r cs)
  drop_occupied-Free none [] = tt
  drop_occupied-Free none (c ∷ cs) = (tt, drop_occupied-Free none cs)
  drop_occupied-Free (some symbols) [] = tt
  drop_occupied-Free (some symbols) (c ∷ cs) = ground (arith, drop_occupied-Free (some symbols) cs)

  drop_occupied-All :
      (P : Candidate F → Type 0) (r : Option (List String)) (cs : List (Candidate F))
      → All P cs
      → All P (drop_occupied r cs)
  drop_occupied-All P none cs h = h
  drop_occupied-All P (some symbols) cs h = All-keep P _ cs h

  pub select-Found :
      (P : ScoredCandidate F × IndicatorSnapshot F → Type 0) (symbol : String)
      (xs : List (ScoredCandidate F × IndicatorSnapshot F))
      (s : ScoredCandidate F × IndicatorSnapshot F)
      → All P xs
      → select symbol xs ≡ some s
      → P s × (s.0.candidate.symbol ≡ symbol)
  select-Found P symbol [] s h e = cc
  select-Found P symbol ((sc, ind) ∷ xs) s (p, ps) e =
      elim (Bool-cases (str_eq sc.candidate.symbol symbol)) [
        | inl y ↦
            let same = some-injective (sc, ind) s (rw y at e) in
            (
              subst P same p,
              ap (λ (t : ScoredCandidate F × IndicatorSnapshot F). t.0.candidate.symbol) (sym same)
                  ∙ (eq_iff sc.candidate.symbol symbol).0 y,
            )
        | inr n ↦ select-Found P symbol xs s ps (rw n at e)
      ]

module _ {F : Type 0} ⦃f : Float64 F⦄ (cfg : ScanConfig F) (e : Inputs F) (o : Orders F)
    (w : WindowType) where
  open f use {lit, lt, le}

  -- A candidate that may be asked about: the market offers it, no position is known to hold its
  -- symbol, and its symbol is not known to be on cooldown.
  pub record Askable (c : Candidate F) : Type 0 where
    pub eligible : Eligible cfg.funding (provider e.market) (e.clock Moment.at_scan) c
    pub unoccupied : Free (active_symbols e.occupied) c
    pub cool : e.on_cooldown c.symbol ≢ some true

  -- A scored candidate that is asked about: it is no stale setup and shows a reversal.
  pub record Asked (s : ScoredCandidate F × IndicatorSnapshot F) : Type 0 where
    pub askable : Askable s.0.candidate
    pub not_stale : lt s.1.rsi7_5m (lit (pos 35) 0) ≡ false
    pub high_score : le (lit (pos 47) 0) s.0.composite_score ≡ true

  filter_books-All :
      (P : Candidate F → Type 0) (least : F) (cs : List (Candidate F))
      (books : String → Option (BookTicker F))
      → All P cs
      → All P (filter_books cfg e least cs books).0
  filter_books-All P least [] books h = tt
  filter_books-All P least (c ∷ cs) books (p, ps) =
      let ih = filter_books-All P least cs (seeded_books e c.symbol books) ps in
      All-if P _ (c ∷ (filter_books cfg e least cs (seeded_books e c.symbol books)).0) _ (p, ih) ih

  filter_by_balance-All :
      (P : Candidate F → Type 0) (b : Option (Balance F)) (cs : List (Candidate F))
      (books : String → Option (BookTicker F)) (v : World F)
      → All P cs
      → All P (filter_by_balance cfg e b cs books v).0
  filter_by_balance-All P none cs books v h = h
  filter_by_balance-All P (some b) cs books v h =
      filter_books-All P (min_ask_liquidity cfg e b) cs books h

  pub filter_thin-All :
      (P : Candidate F → Type 0) (cs : List (Candidate F)) (books : String → Option (BookTicker F))
      (v : World F)
      → All P cs
      → All P (filter_thin_order_book cfg e cs books v).0
  unfolding filter_thin_order_book
  filter_thin-All P cs books v h =
      elim (Bool-cases (not cfg.books.enabled || not e.has_book_cache)) [
        | inl y ↦ rw y h
        | inr n ↦ rw n (filter_by_balance-All P _ cs books _ h)
      ]

  pub liquid-Askable :
      (laws : IsSort o.by_rate)
      → All Askable (
          filter_by_volume cfg.min_volume_24h_m (
            filter_cooldown_symbols e (
              filter_occupied_symbols e
                (scan_market cfg.funding (provider e.market) (e.clock Moment.at_scan) o.by_rate))))
  liquid-Askable laws =
      let scanned =
        scan_market cfg.funding (provider e.market) (e.clock Moment.at_scan) o.by_rate in
      let r = active_symbols e.occupied in
      let free = drop_occupied r scanned in
      let good =
        drop_occupied-All _ r scanned
          (scan-Eligible cfg.funding (provider e.market) (e.clock Moment.at_scan) o.by_rate laws) in
      let cool = λ (c : Candidate F). is_free (e.on_cooldown c.symbol) in
      All-keep Askable _ (keep cool free) (
        All-map _ Askable
          (λ c h. record { eligible = h.0.0; unoccupied = h.0.1; cool = λ n. cc (rw n at h.1) })
          (keep cool free)
          (All-both _ _ (keep cool free)
            (All-keep _ cool free (All-both _ _ free good (drop_occupied-Free r scanned)))
            (keep-All cool free)))

  scored-Askable :
      (cs : List (Candidate F))
      → All Askable cs
      → All (λ s. Askable s.0.candidate) (map (score_candidate cfg e o w) cs)
  unfolding score
  scored-Askable [] h = tt
  scored-Askable (c ∷ cs) (p, ps) = (p, scored-Askable cs ps)

  pub confluent-Asked :
      IsSort o.by_score
      → (cs : List (Candidate F)) → All Askable cs
      → All Asked (keep has_reversal_evidence (fresh_of cfg e o w cs))
  confluent-Asked laws cs h =
      let sorted = o.by_score.sort higher_score (map (score_candidate cfg e o w) cs) in
      let fresh = keep is_fresh sorted in
      let confluent = keep has_reversal_evidence fresh in
      let askable =
        All-perm _ (laws.permutes higher_score (map (score_candidate cfg e o w) cs))
          (scored-Askable cs h) in
      All-map _ Asked
        (λ s k. record {
          askable = k.0.0;
          not_stale = ground (arith, k.0.1);
          high_score = ground (arith, k.1);
        })
        confluent
        (All-both _ _ confluent
          (All-keep _ has_reversal_evidence fresh
            (All-both _ _ fresh (All-keep _ is_fresh sorted askable) (keep-All is_fresh sorted)))
          (keep-All has_reversal_evidence fresh))
