-- ===== src/Market/Candles/History.antt =====
-- internal/market/candle_store.go against an unbounded history: a candle that has opened with the last
-- one takes its place, any other is put at the end.
use Prim.Native.String.{String}
use mathlib.Core.Option
use mathlib.Core.Path.{subst}
use text.Mathlib.Text.{◌==◌ as str_eq}
use binance_futures.Base.{
  Bool-cases, Option-cases, ltb→lt, inl, inr, ℕ, zero, suc, ◌-◌, ◌≤◌, ◌<◌, ◌≡◌, refl, sym, ap, ◌∙◌,
  ◌&&◌, Option, none, some, List, [], ◌∷◌, ◌++◌, length, drop, ltb, if◌then◌else◌, arith, last_of,
  last_of-drop, last_of-past, last_of-short, length-last_of, last_of-last_of,
}
use binance_futures.Domain.{Candle, Timeframe}
use binance_futures.Scoring.{same_timeframe}
use binance_futures.Market.Candles.{
  CandleStore, new_candle_store, max_candles_per_series, replace_last, update_series, update_candle,
  purge_candles, get_candles,
}

pub data StoreCall (F : Type 0) : Type 0 where
  update : Candle F → StoreCall F
  purge : String → StoreCall F

module _ {F : Type 0} where
  -- One step of the history that never drops a candle.
  unfoldable pub fold_in : List (Candle F) → Candle F → List (Candle F)
  fold_in cs c = elim (replace_last cs c) [ some replaced ↦ replaced | none ↦ cs ++ c ∷ [] ]

  abbrev pub run : List (StoreCall F) → CandleStore F
  run [] = new_candle_store
  run (StoreCall.update c ∷ calls) = update_candle c (run calls)
  run (StoreCall.purge s ∷ calls) = purge_candles s (run calls)

  -- The history of one series, the latest call first.
  abbrev pub history : String → Timeframe → List (StoreCall F) → List (Candle F)
  history symbol tf [] = []
  history symbol tf (StoreCall.update c ∷ calls) =
      let before = history symbol tf calls in
      if str_eq c.symbol symbol && same_timeframe c.timeframe tf then fold_in before c else before
  history symbol tf (StoreCall.purge s ∷ calls) =
      let before = history symbol tf calls in if str_eq s symbol then [] else before

  fold_in-cons :
      (x y : Candle F) (ys : List (Candle F)) (c : Candle F)
      → fold_in (x ∷ y ∷ ys) c ≡ x ∷ fold_in (y ∷ ys) c
  unfolding fold_in
  fold_in-cons x y ys c = ground arith

  fold_in-drop :
      (k : ℕ) (cs : List (Candle F)) (c : Candle F)
      → k < length cs
      → fold_in (drop k cs) c ≡ drop k (fold_in cs c)
  fold_in-drop zero cs c h = refl
  fold_in-drop (suc k) [] c h = absurd (omega (arith, h))
  fold_in-drop (suc k) (x ∷ []) c h = absurd (omega (arith, h))
  fold_in-drop (suc k) (x ∷ y ∷ ys) c h =
      fold_in-drop k (y ∷ ys) c (omega (arith, h)) ∙ sym (ap (drop (suc k)) (fold_in-cons x y ys c))

  length-fold_in_ge : (cs : List (Candle F)) (c : Candle F) → length cs ≤ length (fold_in cs c)
  unfolding fold_in
  length-fold_in_ge [] c = omega arith
  length-fold_in_ge (x ∷ []) c = ground arith
  length-fold_in_ge (x ∷ y ∷ ys) c =
      omega (arith, length-fold_in_ge (y ∷ ys) c, ap length (fold_in-cons x y ys c))

  unfoldable SameLength : List (Candle F) → Option (List (Candle F)) → Type 0
  SameLength cs none = Unit
  SameLength cs (some ds) = length ds ≡ length cs

  SameLength-cons :
      (x : Candle F) (cs : List (Candle F)) (o : Option (List (Candle F)))
      → SameLength cs o
      → SameLength (x ∷ cs) (Option.map (◌∷◌ x) o)
  unfolding SameLength
  SameLength-cons x cs none h = tt
  SameLength-cons x cs (some ds) h = ap suc h

  length-replace_last : (cs : List (Candle F)) (c : Candle F) → SameLength cs (replace_last cs c)
  unfolding SameLength
  length-replace_last [] c = tt
  length-replace_last (x ∷ []) c = ground arith
  length-replace_last (x ∷ y ∷ ys) c =
      SameLength-cons x (y ∷ ys) (replace_last (y ∷ ys) c) (length-replace_last (y ∷ ys) c)

  -- The call on a series that is within its bound, as a step of the history.
  update_series-fold_in :
      (cs : List (Candle F)) (c : Candle F)
      → length cs ≤ max_candles_per_series
      → update_series cs c ≡ last_of max_candles_per_series (fold_in cs c)
  unfolding update_series fold_in SameLength
  update_series-fold_in cs c h = elim (Option-cases (replace_last cs c)) [
    | inl e ↦ rw (update_series, fold_in, e) refl
    | inr (ds, e) ↦
        let same : length ds ≡ length cs = subst (SameLength cs) e (length-replace_last cs c) in
        rw (update_series, fold_in, e)
          (sym (last_of-short max_candles_per_series ds (omega (arith, same, h))))
  ]

  fold_in-last_of :
      (n : ℕ) (cs : List (Candle F)) (c : Candle F)
      → 0 < n
      → last_of n (fold_in (last_of n cs) c) ≡ last_of n (fold_in cs c)
  fold_in-last_of n cs c h = elim (Bool-cases (ltb n (length cs))) [
    | inl e ↦
        let longer : n < length cs = ltb→lt n (length cs) e in
        let grown : length cs ≤ length (fold_in cs c) = length-fold_in_ge cs c in
        ap (λ l. last_of n (fold_in l c)) (last_of-drop n cs)
        ∙ ap (last_of n) (fold_in-drop (length cs - n) cs c (omega arith))
        ∙ last_of-past n (length cs - n) (fold_in cs c) (omega arith)
    | inr e ↦ ap (λ l. last_of n (fold_in l c)) (last_of-short n cs (ground arith))
  ]

  series-history :
      (symbol : String) (tf : Timeframe) (calls : List (StoreCall F))
      → (run calls).series symbol tf ≡ last_of max_candles_per_series (history symbol tf calls)
  unfolding update_candle purge_candles
  series-history symbol tf [] = refl
  series-history symbol tf (StoreCall.update c ∷ calls) =
      let past = series-history symbol tf calls in
      let step : update_series ((run calls).series symbol tf) c
          ≡ last_of max_candles_per_series (fold_in (history symbol tf calls) c) =
        ap (λ l. update_series l c) past
        ∙ update_series-fold_in (last_of max_candles_per_series (history symbol tf calls)) c
            (length-last_of max_candles_per_series (history symbol tf calls))
        ∙ fold_in-last_of max_candles_per_series (history symbol tf calls) c (omega arith) in
      elim (Bool-cases (str_eq c.symbol symbol && same_timeframe c.timeframe tf)) [
        | inl e ↦ rw e step
        | inr e ↦ rw e past
      ]
  series-history symbol tf (StoreCall.purge s ∷ calls) =
      let past = series-history symbol tf calls in
      elim (Bool-cases (str_eq s symbol)) [ inl e ↦ rw e refl | inr e ↦ rw e past ]

  -- After any calls of `Update` and `Purge`, `Get` with a limit of at most 200 candles gives the end
  -- of the history of the series that drops no candle: the bound on a series is never seen.
  pub get_candles-history :
      (symbol : String) (tf : Timeframe) (limit : ℕ) (calls : List (StoreCall F))
      → limit ≤ max_candles_per_series
      → get_candles symbol tf limit (run calls) ≡ last_of limit (history symbol tf calls)
  unfolding get_candles
  get_candles-history symbol tf limit calls h =
      ap (last_of limit) (series-history symbol tf calls)
      ∙ last_of-last_of limit max_candles_per_series (history symbol tf calls) h
