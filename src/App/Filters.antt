-- ===== src/App/Filters.antt =====
-- The filters of internal/app/scan.go before the scoring: occupied symbols, cooldowns, and the order
-- book. Each keeps the order of what it keeps.
use Prim.Native.String.{String}
use text.Mathlib.Text.{◌==◌ as str_eq}
use binance_futures.Base.{
  ℕ, Bool, true, false, not, ◌||◌, Option, none, some, List, [], ◌∷◌, any, keep, if◌then◌else◌,
}
use binance_futures.Base.Int.{pos}
use binance_futures.Float64.{Float64, nought, hundred}
use binance_futures.Domain.{Balance, Candidate}
use binance_futures.Execution.Engine.{read_balance}
use binance_futures.Execution.World.{World}
use binance_futures.Market.Books.{BookTicker, put, spread_bps}
use binance_futures.Risk.{active_symbols}
use binance_futures.App.State.{Inputs, PriceLevel, ScanConfig}

-- An unreadable cooldown lets the symbol pass.
abbrev pub is_free : Option Bool → Bool
is_free none = true
is_free (some on) = not on

abbrev pub is_occupied : List String → String → Bool
is_occupied symbols s = any (λ t. str_eq t s) symbols

module _ {F : Type 0} where
  abbrev pub filter_cooldown_symbols : Inputs F → List (Candidate F) → List (Candidate F)
  filter_cooldown_symbols e cs = keep (λ c. is_free (e.on_cooldown c.symbol)) cs

  -- With unreadable positions nothing is dropped.
  abbrev pub drop_occupied : Option (List String) → List (Candidate F) → List (Candidate F)
  drop_occupied none cs = cs
  drop_occupied (some symbols) cs = keep (λ c. not (is_occupied symbols c.symbol)) cs

  abbrev pub filter_occupied_symbols : Inputs F → List (Candidate F) → List (Candidate F)
  filter_occupied_symbols e cs = drop_occupied (active_symbols e.occupied) cs

module _ {F : Type 0} ⦃f : Float64 F⦄ where
  open f use {lit, of_int, add, mul, div, minimum, lt, eq}

  -- The loop of `askLiquidityToSL`.
  abbrev pub ask_total : F → F → List (PriceLevel F) → F
  ask_total sl_price total [] = total
  ask_total sl_price total (l ∷ ls) =
      let rest = ask_total sl_price (add total (mul l.price l.qty)) ls in
      if lt sl_price l.price then total else rest

  abbrev pub ask_liquidity_to_sl : Inputs F → String → F → ℕ → Option F
  ask_liquidity_to_sl e symbol sl_price levels = elim (e.depth symbol levels) [
    | none ↦ none
    | some asks ↦ some (ask_total sl_price nought asks)
  ]

  abbrev pub usable_ticker : Option (BookTicker F) → Option (BookTicker F)
  usable_ticker none = none
  usable_ticker (some b) = if eq b.bid_price nought || eq b.ask_price nought then none else some b

  abbrev pub fetch_book_ticker_rest : Inputs F → String → Option (BookTicker F)
  fetch_book_ticker_rest e symbol = usable_ticker (e.book_ticker symbol)

  -- The spread of the cached book, which is fetched if the cache has none.
  abbrev pub seeded_books :
      Inputs F → String → (String → Option (BookTicker F)) → String → Option (BookTicker F)
  seeded_books e symbol books = elim (spread_bps (books symbol)) [
    | some _ ↦ books
    | none ↦ elim (fetch_book_ticker_rest e symbol) [ none ↦ books | some b ↦ put symbol b books ]
  ]

  module _ (cfg : ScanConfig F) (e : Inputs F) where
    -- `minAskLiquidity`.
    abbrev pub min_ask_liquidity : Balance F → F
    min_ask_liquidity b =
        let margin =
          minimum (div (mul b.total_balance cfg.books.position_size_pct) hundred)
            (lit (pos 500) 0) in
        mul cfg.books.depth_ratio_n (mul margin (of_int cfg.execution.leverage))

    abbrev pub deep_enough : F → Option F → Bool
    deep_enough least none = false
    deep_enough least (some liq) = not (lt liq least)

    abbrev pub sl_price_of : Candidate F → F
    sl_price_of c = mul c.mark_price (add (lit (pos 1) 0) (div cfg.execution.sl_pct hundred))

    -- Both stages for one candidate, by its spread.
    abbrev pub passes_book : F → Candidate F → Option F → Bool
    passes_book least c none = false
    passes_book least c (some spread) =
        if lt cfg.books.max_spread_bps spread
        then false
        else deep_enough least
            (ask_liquidity_to_sl e c.symbol (sl_price_of c) cfg.books.depth_levels)

    abbrev pub filter_books :
        F
        → List (Candidate F)
        → (String → Option (BookTicker F))
        → List (Candidate F) × (String → Option (BookTicker F))
    filter_books least [] books = ([], books)
    filter_books least (c ∷ cs) books =
        let books' = seeded_books e c.symbol books in
        let (kept, end) = filter_books least cs books' in
        (if passes_book least c (spread_bps (books' c.symbol)) then c ∷ kept else kept, end)

    -- The filter by a balance that may be missing; the world is passed on.
    abbrev pub filter_by_balance :
        Option (Balance F)
        → List (Candidate F)
        → (String → Option (BookTicker F))
        → World F
        → List (Candidate F) × (String → Option (BookTicker F)) × World F
    filter_by_balance none cs books w = (cs, books, w)
    filter_by_balance (some b) cs books w =
        let (kept, books') = filter_books (min_ask_liquidity b) cs books in (kept, books', w)

    -- The candidates, the cache of books and the world afterwards.
    unfoldable pub filter_thin_order_book :
        List (Candidate F)
        → (String → Option (BookTicker F))
        → World F
        → List (Candidate F) × (String → Option (BookTicker F)) × World F
    filter_thin_order_book cs books w =
        if not cfg.books.enabled || not e.has_book_cache
        then (cs, books, w)
        else let (balance, w') = read_balance cfg.execution e.exchange w in
          filter_by_balance balance cs books w'
