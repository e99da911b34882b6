-- ===== src/Memory/Retrieved.antt =====
-- What `FindSimilar` of internal/memory/retriever.go gives the language model.
use Prim.Native.String.{String}
use text.Mathlib.Text.{◌==◌ as str_eq}
use mathlib.Core.Path.{subst}
use mathlib.Core.List.{Permᴰ}
use text.Mathlib.TextEquality.{eq_iff}
use binance_futures.Base.Int.{ℤ, pos, negsuc, pos_part, ltb_ℤ}
use binance_futures.Base.{
  ◌⊎◌, Bool, sym, any, true, ◌&&◌, if◌then◌else◌, ℕ, suc, ◌≡◌, ◌≢◌, refl, inl, inr, Bool-cases,
  false, not, Option, none, some, List, [], ◌∷◌, All, All-both, All-keep, All-map, keep-All, keep,
  map, take, arith,
}
use binance_futures.Base.Sorting.{Sorter, IsSort, IsStrictWeak, Ordered, All-perm}
use binance_futures.Float64.{Float64}
use binance_futures.Domain.{BtcContext, Candidate, IndicatorSnapshot, ModeWinRate, SimilarTrade}
use binance_futures.Memory.{
  FindResult, RetrieverConfig, TradeMemory, compute_mode_win_rates, count_in, counted, crash,
  failed, find_similar, more_similar, retrieved, scored, similar_trade,
}

-- How many of the list pass.
abbrev pub count {ℓ} : {A : Type ℓ} → (A → Bool) → List A → ℕ
count p [] = 0
count p (x ∷ xs) = let rest = count p xs in if p x then suc rest else rest

-- The counts under a mode, all 0 without an entry.
abbrev pub rate_of : String → List (String × ModeWinRate) → ModeWinRate
rate_of mode [] = record { wins = 0; losses = 0; total = 0 }
rate_of mode ((m, r) ∷ rates) = let rest = rate_of mode rates in if str_eq m mode then r else rest

-- Which outcomes are a win and which a loss; others, as BREAKEVEN, are neither.
abbrev pub wins_as : String → Bool
wins_as o = any (λ w. str_eq o w) ("WIN" ∷ "PARTIAL_WIN" ∷ "SKIP_MISSED" ∷ [])

abbrev pub loses_as : String → Bool
loses_as o = any (λ l. str_eq o l) ("LOSS" ∷ "FORCE_SL" ∷ "SKIP_VALIDATED" ∷ [])

count_in-same :
    (mode outcome : String) (stats : List (String × ModeWinRate))
    → rate_of mode (count_in mode outcome stats) ≡ counted outcome (rate_of mode stats)
unfolding count_in
count_in-same mode outcome [] = rw ((eq_iff mode mode).1 refl) refl
count_in-same mode outcome ((m, r) ∷ stats) = elim (Bool-cases (str_eq m mode)) [
  | inl y ↦ rw (y, y) refl
  | inr n ↦ rw (n, n) (count_in-same mode outcome stats)
]

unnamed : (mode : String) → str_eq mode "" ≡ false → str_eq "" mode ≡ false
unnamed mode h = elim (Bool-cases (str_eq "" mode)) [
  | inl y ↦ cc (h, (eq_iff mode "").1 (sym ((eq_iff "" mode).0 y)))
  | inr n ↦ n
]

counted-Counts :
    (o : String) (r : ModeWinRate)
    → counted o r ≡ record {
      wins = if wins_as o then suc r.wins else r.wins;
      losses = if loses_as o then suc r.losses else r.losses;
      total = suc r.total;
    }
counted-Counts o r = elim (Bool-cases (str_eq o "WIN")) [
  | inl y ↦ rw ((eq_iff o "WIN").0 y) (ground arith)
  | inr a ↦ elim (Bool-cases (str_eq o "PARTIAL_WIN")) [
    | inl y ↦ rw ((eq_iff o "PARTIAL_WIN").0 y) (ground arith)
    | inr b ↦ elim (Bool-cases (str_eq o "SKIP_MISSED")) [
      | inl y ↦ rw ((eq_iff o "SKIP_MISSED").0 y) (ground arith)
      | inr c ↦ ground (arith, a, b, c)
    ]
  ]
]

count_in-other :
    (mode other outcome : String) (stats : List (String × ModeWinRate))
    → str_eq other mode ≡ false
    → rate_of mode (count_in other outcome stats) ≡ rate_of mode stats
unfolding count_in
count_in-other mode other outcome [] h = rw h refl
count_in-other mode other outcome ((m, r) ∷ stats) h = elim (Bool-cases (str_eq m other)) [
  | inl y ↦
      let k : str_eq m mode ≡ false =
        subst (λ t. str_eq t mode ≡ false) (sym ((eq_iff m other).0 y)) h in
      rw (y, k) refl
  | inr n ↦ rw n (ground (arith, count_in-other mode other outcome stats h))
]

module _ {F : Type 0} ⦃f : Float64 F⦄ where
  open f use {lt, lit}

  -- A trade of the mode that is similar enough for the counts.
  abbrev pub pooled : String → SimilarTrade F → Bool
  pooled mode s = not (lt s.similarity (lit (pos 75) 2)) && str_eq s.entry_mode mode

  -- Each mode with a name has the wins, the losses and the number of its trades.
  abbrev pub Counts : List (SimilarTrade F) → List (String × ModeWinRate) → Type 0
  Counts pool rates =
      (mode : String)
      → str_eq mode "" ≡ false
      → rate_of mode rates ≡ record {
        wins = count (λ s. pooled mode s && wins_as s.outcome) pool;
        losses = count (λ s. pooled mode s && loses_as s.outcome) pool;
        total = count (pooled mode) pool;
      }

  compute_mode_win_rates-Counts :
      (ss : List (SimilarTrade F)) → Counts ss (compute_mode_win_rates (lit (pos 75) 2) ss)
  unfolding compute_mode_win_rates
  compute_mode_win_rates-Counts [] mode h = refl
  compute_mode_win_rates-Counts (s ∷ ss) mode h =
      let rest = compute_mode_win_rates (lit (pos 75) 2) ss in
      let ih = compute_mode_win_rates-Counts ss mode h in
      elim (Bool-cases (lt s.similarity (lit (pos 75) 2))) [
        | inl y ↦ rw y ih
        | inr n ↦ elim (Bool-cases (str_eq s.entry_mode "")) [
          | inl y ↦
              let k : str_eq s.entry_mode mode ≡ false =
                rw ((eq_iff s.entry_mode "").0 y) (unnamed mode h) in
              rw (n, y, k) ih
          | inr n' ↦ elim (Bool-cases (str_eq s.entry_mode mode)) [
            | inl same ↦
                let e : rate_of mode (count_in s.entry_mode s.outcome rest)
                    ≡ counted s.outcome (rate_of mode rest) =
                  rw ((eq_iff s.entry_mode mode).0 same) (count_in-same mode s.outcome rest) in
                rw (n, n', same, e, ih) (counted-Counts s.outcome _)
            | inr other ↦
                rw (n, n', other, count_in-other mode s.entry_mode s.outcome rest other) ih
          ]
        ]
      ]

  -- A trade that has ended and is similar enough.
  abbrev pub IsRelevant : RetrieverConfig F → SimilarTrade F → Type 0
  IsRelevant cfg s = (lt s.similarity cfg.min_similarity ≡ false) × (str_eq s.outcome "" ≡ false)

  ended-trades :
      (ind : IndicatorSnapshot F) (b : BtcContext F) (c : Candidate F) (at_ now : ℕ)
      (ts : List (TradeMemory F))
      → All
          (λ (s : SimilarTrade F). str_eq s.outcome "" ≡ false)
          (map (similar_trade ind b c at_ now) (keep (λ t. not (str_eq t.outcome "")) ts))
  ended-trades ind b c at_ now [] = tt
  ended-trades ind b c at_ now (t ∷ ts) = elim (Bool-cases (str_eq t.outcome "")) [
    | inl y ↦ rw y (ended-trades ind b c at_ now ts)
    | inr n ↦ rw n (n, ended-trades ind b c at_ now ts)
  ]

  scored-Relevant :
      (ind : IndicatorSnapshot F) (b : BtcContext F) (c : Candidate F) (at_ : ℕ)
      (cfg : RetrieverConfig F) (now : ℕ) (ts : List (TradeMemory F))
      → All (IsRelevant cfg) (scored ind b c at_ cfg now ts)
  scored-Relevant ind b c at_ cfg now ts =
      let ended = keep (λ t. not (str_eq t.outcome "")) ts in
      let similar = λ (s : SimilarTrade F). not (lt s.similarity cfg.min_similarity) in
      let trades = map (similar_trade ind b c at_ now) ended in
      All-map _ (IsRelevant cfg) (λ s h. (ground (arith, h.1), h.0)) (keep similar trades)
        (All-both _ _ (keep similar trades)
          (All-keep _ similar trades (ended-trades ind b c at_ now ts)) (keep-All similar trades))

  -- What an answer may be, by the repository's answer and the context of BTC.
  module _ (cfg : RetrieverConfig F) (ind : IndicatorSnapshot F) (c : Candidate F)
      (at_ now : ℕ) where
    abbrev pub Answers :
        Option (List (TradeMemory F)) → Option (BtcContext F) → FindResult F → Type 0
    Answers results btc failed = results ≡ none
    Answers results btc crash =
        (results ≢ none) × ((btc ≡ none) ⊎ (ltb_ℤ cfg.top_similar (pos 0) ≡ true))
    Answers results btc (retrieved detail rates) =
        (ts : List (TradeMemory F)) × (b : BtcContext F) × (pool : List (SimilarTrade F)) × (results
          ≡ some ts)
        × (btc ≡ some b)
        × Permᴰ pool (scored ind b c at_ cfg now ts)
        × Ordered (λ u v. lt v.similarity u.similarity) pool
        × All (IsRelevant cfg) pool
        × (detail ≡ take (pos_part cfg.top_similar) pool)
        × Counts pool rates

    trim-Answers :
        (ts : List (TradeMemory F)) (b : BtcContext F) (pool : List (SimilarTrade F))
        → Permᴰ pool (scored ind b c at_ cfg now ts)
        → Ordered more_similar pool
        → (n : ℤ) → cfg.top_similar ≡ n
        → Answers (some ts) (some b) (elim n [
          | pos n ↦ retrieved (take n pool) (compute_mode_win_rates (lit (pos 75) 2) pool)
          | negsuc _ ↦ crash
        ])
    trim-Answers ts b pool permuted ordered (negsuc n) e = (λ h. cc, inr (rw e (ground arith)))
    trim-Answers ts b pool permuted ordered (pos n) e = (
      ts,
      b,
      pool,
      refl,
      refl,
      permuted,
      ordered,
      All-perm (IsRelevant cfg) permuted (scored-Relevant ind b c at_ cfg now ts),
      rw e refl,
      compute_mode_win_rates-Counts pool,
    )

    -- For a sort that is one and similarities that `<` orders weakly (none is NaN), the trades that are
    -- retrieved are the first `TopSimilar` of a ranking by similarity, the most similar first, of the
    -- trades that have ended and are similar enough, and the counts of each mode are the wins, the
    -- losses and the number of its trades of at least 0.75 in that ranking. An error comes only from the
    -- repository; without a context of BTC, or with a negative `TopSimilar`, every other answer of the
    -- repository ends in a panic.
    pub find_similar-Answers :
        (s : Sorter (SimilarTrade F))
        → IsSort s
        → IsStrictWeak (λ (u v : SimilarTrade F). lt v.similarity u.similarity)
        → (results : Option (List (TradeMemory F))) (btc : Option (BtcContext F))
        → Answers results btc (find_similar s cfg results ind btc c at_ now)
    unfolding find_similar
    find_similar-Answers s laws weak none btc = refl
    find_similar-Answers s laws weak (some ts) none = (λ h. cc, inl refl)
    find_similar-Answers s laws weak (some ts) (some b) =
        trim-Answers ts b (s.sort more_similar (scored ind b c at_ cfg now ts))
          (laws.permutes more_similar (scored ind b c at_ cfg now ts))
          (laws.orders more_similar (scored ind b c at_ cfg now ts) weak) cfg.top_similar refl
