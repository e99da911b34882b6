-- ===== src/Intent/Symbols.antt =====
-- What `Enqueue` and `CancelBySymbol` do to the pending intents of each symbol.
use Prim.Native.String.{String}
use mathlib.Core.List.{Permᴰ}
use text.Mathlib.Text.{◌==◌ as str_eq}
use text.Mathlib.TextEquality.{eq_iff}
use binance_futures.Base.{
  ℕ, ◌+◌, ◌≡◌, ◌≢◌, refl, sym, ap, ◌∙◌, inl, inr, Bool, true, false, not, ◌&&◌, ◌||◌, List, [], ◌∷◌,
  ◌++◌, arith, if◌then◌else◌, keep, any, length, All, All-map, Bool-cases,
}
use binance_futures.Base.Sorting.{Sorter, IsSort, Pairs, All-perm, total, total-perm}
use binance_futures.Intent.{
  TradeIntent, Queue, is_pending, more_confident, pending_symbol, merge, enqueue, cancel_by_symbol,
  has_pending_symbol, pending_count,
}
use binance_futures.Intent.Laws.{IsValid}

module _ {F : Type 0} where
  pub any-perm :
      (p : TradeIntent F → Bool) {xs ys : List (TradeIntent F)} → Permᴰ xs ys → any p xs ≡ any p ys
  any-perm p Permᴰ.nil = refl
  any-perm p (Permᴰ.cons e d) = ground (arith, ap p e, any-perm p d)
  any-perm p (Permᴰ.swap e₁ e₂) = ground (arith, ap p e₁, ap p e₂)
  any-perm p (Permᴰ.trans d₁ d₂) = any-perm p d₁ ∙ any-perm p d₂

  any-append :
      (p : TradeIntent F → Bool) (xs ys : List (TradeIntent F))
      → any p (xs ++ ys) ≡ (any p xs || any p ys)
  any-append p [] ys = refl
  any-append p (x ∷ xs) ys = ground (arith, any-append p xs ys)

  weight : TradeIntent F → ℕ
  weight i = if is_pending i.status then 1 else 0

  pending_count-total :
      (xs : List (TradeIntent F)) → length (keep (λ i. is_pending i.status) xs) ≡ total weight xs
  unfolding weight
  pending_count-total [] = refl
  pending_count-total (x ∷ xs) = ground (arith, pending_count-total xs)

  any-cancel :
      (s t : String) (l : List (TradeIntent F))
      → any (pending_symbol t) (keep (λ i. not (pending_symbol s i)) l)
        ≡ (not (str_eq t s) && any (pending_symbol t) l)
  any-cancel s t [] = ground arith
  any-cancel s t (i ∷ l) =
      ground (arith, any-cancel s t l, eq_iff i.symbol s, eq_iff i.symbol t, eq_iff t s)

  -- After a cancel the symbol has no pending intent, and every other symbol has one exactly if it
  -- had one before.
  pub has_pending_symbol-cancel_by_symbol :
      (s t : String) (q : Queue F)
      → has_pending_symbol t (cancel_by_symbol s q) ≡ (not (str_eq t s) && has_pending_symbol t q)
  unfolding has_pending_symbol
  has_pending_symbol-cancel_by_symbol s t q = any-cancel s t q.intents

  -- `merge` replaces a pending intent of the symbol, or adds one.
  any-merge :
      (t : String) (i : TradeIntent F) (xs : List (TradeIntent F))
      → is_pending i.status ≡ true
      → any (pending_symbol t) (merge i xs) ≡ (str_eq i.symbol t || any (pending_symbol t) xs)
  unfolding merge
  any-merge t i [] p = ground arith
  any-merge t i (x ∷ xs) p =
      ground
        (arith, any-merge t i xs p, eq_iff x.symbol i.symbol, eq_iff x.symbol t, eq_iff i.symbol t)

  total-merge :
      (i : TradeIntent F) (xs : List (TradeIntent F))
      → is_pending i.status ≡ true
      → total weight (merge i xs)
        ≡ total weight xs + (if any (pending_symbol i.symbol) xs then 0 else 1)
  unfolding merge weight
  total-merge i [] p = ground arith
  total-merge i (x ∷ xs) p = ground (arith, total-merge i xs p)

  merge_cons :
      (i x : TradeIntent F) (xs : List (TradeIntent F))
      → pending_symbol i.symbol x ≡ false
      → merge i (x ∷ xs) ≡ x ∷ merge i xs
  unfolding merge
  merge_cons i x xs e = ground arith

  -- What is there for the symbol of `i` is `i`.
  abbrev pub IsLatest : TradeIntent F → TradeIntent F → Type 0
  IsLatest i e = e.symbol ≡ i.symbol → e ≡ i

  merge-IsLatest :
      (i : TradeIntent F) (xs : List (TradeIntent F))
      → All (λ e. is_pending e.status ≡ true) xs
      → Pairs (λ a b. a.symbol ≢ b.symbol) xs
      → All (IsLatest i) (merge i xs)
  unfolding merge
  merge-IsLatest i [] p d = ((λ _. refl), tt)
  merge-IsLatest i (x ∷ xs) (p, ps) (d, ds) = elim (Bool-cases (pending_symbol i.symbol x)) [
    | inl e ↦
        let same : x.symbol ≡ i.symbol = ground (arith, eq_iff x.symbol i.symbol) in
        rw (e, merge)
          (
            (λ _. refl),
            All-map (λ b. x.symbol ≢ b.symbol) (IsLatest i) (λ b n q. absurd (n (same ∙ sym q))) xs
                d,
          )
    | inr e ↦
        let other : x.symbol ≢ i.symbol = ground (arith, eq_iff x.symbol i.symbol) in
        rw (merge_cons i x xs e) ((λ q. absurd (other q)), merge-IsLatest i xs ps ds)
  ]

module _ {F : Type 0} (s : Sorter (TradeIntent F)) (laws : IsSort s) where
  -- Putting a pending intent on a well-formed queue leaves it as the only one for its symbol, adds
  -- that symbol to those with a pending intent and no other, and lets the number of pending intents
  -- grow by one exactly if the symbol had none.
  pub enqueue-IsLatest :
      (i : TradeIntent F) (q : Queue F)
      → is_pending i.status ≡ true
      → IsValid q
      → All (IsLatest i) (enqueue s i q).intents
        × ((t : String)
            → has_pending_symbol t (enqueue s i q) ≡ (str_eq i.symbol t || has_pending_symbol t q))
        × (pending_count (enqueue s i q)
            ≡ pending_count q + (if has_pending_symbol i.symbol q then 0 else 1))
  unfolding enqueue has_pending_symbol pending_count
  enqueue-IsLatest i q p v =
      let d = laws.permutes more_confident (merge i q.intents) in
      (
        All-perm (IsLatest i) d (merge-IsLatest i q.intents v.all_pending v.distinct),
        λ t. any-perm (pending_symbol t) d ∙ any-merge t i q.intents p,
        rw
            (
              pending_count-total (s.sort more_confident (merge i q.intents)),
              pending_count-total q.intents,
              total-perm weight d,
            )
            (total-merge i q.intents p),
      )
