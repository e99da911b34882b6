-- ===== src/Intent/Laws.antt =====
-- The well-formedness of the intent queue, and what each operation does to it.
use Prim.Native.String.{String}
use mathlib.Core.Option
use text.Mathlib.TextEquality.{eq_iff}
use binance_futures.Base.{
  ◌≡◌, ◌≢◌, refl, sym, ◌∙◌, inl, inr, Bool, true, false, not, Option, none, some, List, [], ◌∷◌,
  ◌++◌, arith, ◌==◌, keep, All, All-keep, All-append, All-map, Bool-cases, Option-cases,
}
use binance_futures.Base.Sorting.{
  Sorter, IsSort, IsStrictWeak, Ordered, Pairs, Pairs-perm, All-perm,
}
use binance_futures.Intent.{
  TradeIntent, Queue, QueueOp, enqueues, cancels, claims, clears, is_pending, more_confident,
  pending_symbol, replace_pending, merge, enqueue, apply_op, apply_ops, claim_after_intent,
  after_intents, claim_from, remove,
}

module _ {F : Type 0} where
  abbrev OtherSymbol : TradeIntent F → TradeIntent F → Type 0
  OtherSymbol i j = i.symbol ≢ j.symbol

  -- Every intent in the queue is pending, no symbol has two, and none stands before a more
  -- confident one.
  pub record IsValid (q : Queue F) : Type 0 where
    pub all_pending : All (λ i. is_pending i.status ≡ true) q.intents
    pub distinct : Pairs OtherSymbol q.intents
    pub ranked : Ordered more_confident q.intents

  more_confident-IsStrictWeak : IsStrictWeak (more_confident {F = F})
  more_confident-IsStrictWeak = record {
    asym = λ a b h. ground arith;
    trans = λ a b c h k. ground arith;
    cotrans = λ a b c h. ground arith;
  }

  module _ (p : TradeIntent F → Bool) where
    Pairs-keep {κ} :
        (R : TradeIntent F → TradeIntent F → Type κ) (xs : List (TradeIntent F))
        → Pairs R xs
        → Pairs R (keep p xs)
    Pairs-keep R [] h = tt
    Pairs-keep R (x ∷ xs) (a, b) = ground (arith, All-keep (R x) p xs a, Pairs-keep R xs b)

    Ordered-keep :
        (less : TradeIntent F → TradeIntent F → Bool) (xs : List (TradeIntent F))
        → Ordered less xs
        → Ordered less (keep p xs)
    Ordered-keep less [] h = tt
    Ordered-keep less (x ∷ xs) (a, b) =
        ground (arith, All-keep (λ y. less y x ≡ false) p xs a, Ordered-keep less xs b)

    -- Every filter of the code keeps a queue well formed.
    pub keep-IsValid : {q : Queue F} → IsValid q → IsValid (record q { intents = keep p q.intents })
    keep-IsValid {q} v = record {
      all_pending = All-keep (λ i. is_pending i.status ≡ true) p q.intents v.all_pending;
      distinct = Pairs-keep OtherSymbol q.intents v.distinct;
      ranked = Ordered-keep more_confident q.intents v.ranked;
    }

  abbrev WhenReplaced {κ} : (List (TradeIntent F) → Type κ) → Option (List (TradeIntent F)) → Type κ
  WhenReplaced P none = Unit
  WhenReplaced P (some ys) = P ys

  WhenReplaced-map {κ μ ν} :
      (P : List (TradeIntent F) → Type κ) (Q : List (TradeIntent F) → Type μ)
      (R : List (TradeIntent F) → Type ν) (x : TradeIntent F) (o : Option (List (TradeIntent F)))
      → ((ys : List (TradeIntent F)) → P ys → Q ys → R (x ∷ ys))
      → WhenReplaced P o
      → WhenReplaced Q o
      → WhenReplaced R (Option.map (◌∷◌ x) o)
  WhenReplaced-map P Q R x none f h k = tt
  WhenReplaced-map P Q R x (some ys) f h k = f ys h k

  same_symbol : (s : String) (e : TradeIntent F) → pending_symbol s e ≡ true → e.symbol ≡ s
  same_symbol s e h = ground (arith, eq_iff e.symbol s)

  -- What `replace_pending` does to a property of all intents.
  All-replace_pending {κ} :
      (P : TradeIntent F → Type κ) (i : TradeIntent F) (xs : List (TradeIntent F))
      → ((e : TradeIntent F) → e.symbol ≡ i.symbol → P e → P i)
      → All P xs
      → WhenReplaced (All P) (replace_pending i xs)
  unfolding replace_pending
  All-replace_pending P i [] f h = tt
  All-replace_pending P i (x ∷ xs) f (p, ps) = elim (Bool-cases (pending_symbol i.symbol x)) [
    | inl e ↦ rw e (f x (same_symbol i.symbol x e) p, ps)
    | inr e ↦
        let rest = All-replace_pending P i xs f ps in
        rw e (
          WhenReplaced-map (All P) (All P) (All P) x (replace_pending i xs) (λ ys h k. (p, h)) rest
            rest)
  ]

  Pairs-replace_pending :
      (i : TradeIntent F) (xs : List (TradeIntent F))
      → Pairs OtherSymbol xs
      → WhenReplaced (Pairs OtherSymbol) (replace_pending i xs)
  unfolding replace_pending
  Pairs-replace_pending i [] h = tt
  Pairs-replace_pending i (x ∷ xs) (p, ps) = elim (Bool-cases (pending_symbol i.symbol x)) [
    | inl e ↦ rw e (
      All-map (OtherSymbol x) (OtherSymbol i) (λ y n q. n (same_symbol i.symbol x e ∙ q)) xs p,
      ps,
    )
    | inr e ↦ rw e (
        WhenReplaced-map (All (OtherSymbol x)) (Pairs OtherSymbol) (Pairs OtherSymbol) x
          (replace_pending i xs) (λ ys h k. (h, k))
          (All-replace_pending (OtherSymbol x) i xs (λ y t n q. n (q ∙ sym t)) p)
          (Pairs-replace_pending i xs ps))
  ]

  replace_pending-none :
      (i : TradeIntent F) (xs : List (TradeIntent F))
      → All (λ e. is_pending e.status ≡ true) xs
      → replace_pending i xs ≡ none
      → All (λ e. OtherSymbol e i) xs
  unfolding replace_pending
  replace_pending-none i [] h e = tt
  replace_pending-none i (x ∷ xs) (p, ps) e =
      ground (arith, eq_iff x.symbol i.symbol, replace_pending-none i xs ps)

  Pairs-append :
      (i : TradeIntent F) (xs : List (TradeIntent F))
      → Pairs OtherSymbol xs
      → All (λ e. OtherSymbol e i) xs
      → Pairs OtherSymbol (xs ++ i ∷ [])
  Pairs-append i [] h k = (tt, tt)
  Pairs-append i (x ∷ xs) (p, ps) (k, ks) =
      (All-append (OtherSymbol x) xs (i ∷ []) p (k, tt), Pairs-append i xs ps ks)

  merge-All :
      (i : TradeIntent F) (xs : List (TradeIntent F))
      → is_pending i.status ≡ true
      → All (λ e. is_pending e.status ≡ true) xs
      → All (λ e. is_pending e.status ≡ true) (merge i xs)
  unfolding merge
  merge-All i xs p h = elim (Option-cases (replace_pending i xs)) [
    | inl e ↦ rw (e, merge) (All-append (λ e. is_pending e.status ≡ true) xs (i ∷ []) h (p, tt))
    | inr (ys, e) ↦
        rw (e, merge)
          (rw e at (All-replace_pending (λ e. is_pending e.status ≡ true) i xs (λ _ _ _. p) h))
  ]

  merge-distinct :
      (i : TradeIntent F) (xs : List (TradeIntent F))
      → All (λ e. is_pending e.status ≡ true) xs
      → Pairs OtherSymbol xs
      → Pairs OtherSymbol (merge i xs)
  unfolding merge
  merge-distinct i xs p h = elim (Option-cases (replace_pending i xs)) [
    | inl e ↦ rw (e, merge) (Pairs-append i xs h (replace_pending-none i xs p e))
    | inr (ys, e) ↦ rw (e, merge) (rw e at (Pairs-replace_pending i xs h))
  ]

  pub remove-IsValid : (i : TradeIntent F) {q : Queue F} → IsValid q → IsValid (remove i q)
  remove-IsValid i v = keep-IsValid (λ j. not (j.address == i.address)) v

  -- Validity is about the intents alone.
  pub same-IsValid : {q r : Queue F} → q.intents ≡ r.intents → IsValid q → IsValid r
  same-IsValid e v = record {
    all_pending = rw e at v.all_pending;
    distinct = rw e at v.distinct;
    ranked = rw e at v.ranked;
  }

  claim_from-IsValid :
      (l : List (TradeIntent F)) {q : Queue F} → IsValid q → IsValid (claim_from l q).1
  claim_from-IsValid [] v = v
  claim_from-IsValid (i ∷ _) {q} v = same-IsValid {q = remove i q} refl (remove-IsValid i v)

-- An intent that is put on the queue has the status PENDING.
abbrev pub IsFresh : {F : Type 0} → QueueOp F → Type 0
IsFresh (enqueues i) = is_pending i.status ≡ true
IsFresh _ = Unit

module _ {F : Type 0} (s : Sorter (TradeIntent F)) (laws : IsSort s) where
  -- Putting a pending intent on a well-formed queue leaves the queue well formed.
  pub enqueue-IsValid :
      (i : TradeIntent F) {q : Queue F}
      → is_pending i.status ≡ true
      → IsValid q
      → IsValid (enqueue s i q)
  unfolding enqueue
  enqueue-IsValid i {q} p v =
      let d = laws.permutes more_confident (merge i q.intents) in
      record {
        all_pending =
            All-perm (λ e. is_pending e.status ≡ true) d (merge-All i q.intents p v.all_pending);
        distinct =
            Pairs-perm OtherSymbol (λ a b n t. n (sym t)) d
              (merge-distinct i q.intents v.all_pending v.distinct);
        ranked = laws.orders more_confident (merge i q.intents) more_confident-IsStrictWeak;
      }

  claim-IsValid : {q : Queue F} → IsValid q → IsValid (claim_after_intent q).1
  claim-IsValid {q} v = claim_from-IsValid (after_intents q) v

  pub apply_op-IsValid :
      (o : QueueOp F) {q : Queue F} → IsFresh o → IsValid q → IsValid (apply_op s o q)
  apply_op-IsValid (enqueues i) f v = enqueue-IsValid i f v
  apply_op-IsValid (cancels symbol) f v = keep-IsValid (λ i. not (pending_symbol symbol i)) v
  apply_op-IsValid claims f v = claim-IsValid v
  apply_op-IsValid clears f v = record { all_pending = tt; distinct = tt; ranked = tt }

  pub apply_ops-IsValid :
      (os : List (QueueOp F)) {q : Queue F}
      → All IsFresh os
      → IsValid q
      → IsValid (apply_ops s os q)
  unfolding apply_ops
  apply_ops-IsValid [] f v = v
  apply_ops-IsValid (o ∷ os) (f, fs) v = apply_ops-IsValid os fs (apply_op-IsValid o f v)
