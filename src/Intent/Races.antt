-- ===== src/Intent/Races.antt =====
-- What happens when other goroutines reach the intent queue while a tick runs `execFn`, and when
-- AfterTrigger claims the AFTER intent.
use Prim.Native.String.{String}
use binance_futures.Base.{
  ℕ, ◌+◌, ◌<◌, ◌≡◌, refl, sym, ap, ◌∙◌, false, not, none, some, List, [], ◌∷◌, arith, keep, any,
}
use mathlib.Core.Path.{subst}
use binance_futures.Base.Int.{ℤ}
use binance_futures.Base.Sorting.{Sorter}
use binance_futures.Scheduler.{WindowType}
use binance_futures.Intent.{
  TradeIntent, Queue, Surroundings, skipped, executed, cancels, claims, apply_ops, remove,
  fire_loop, fired_count, tick_queue, expire, best_eligible, mark_fired, claim_after_intent,
  claim_from, after_intents, has_pending_symbol, pending_symbol,
}
use binance_futures.Intent.Fires.{attempts, attempts-cons, attempts-skipped, fire_loop-attempts}
use binance_futures.Intent.Ticks.{tick_queue_runs}

module _ {F : Type 0} where
  none_pending :
      (t : String) (l : List (TradeIntent F))
      → any (pending_symbol t) (keep (λ i. not (pending_symbol t i)) l) ≡ false
  none_pending t [] = refl
  none_pending t (i ∷ l) = ground (arith, none_pending t l)

  cancelled :
      (s : Sorter (TradeIntent F)) (t : String) (q : Queue F)
      → has_pending_symbol t (apply_ops s (cancels t ∷ []) q) ≡ false
  unfolding has_pending_symbol apply_ops
  cancelled s t q = none_pending t q.intents

  claim_from-counts :
      (l : List (TradeIntent F)) (q : Queue F) (c : TradeIntent F)
      → (claim_from l q).0 ≡ some c
      → (claim_from l q).1.fired_in_window.in_after ≡ q.fired_in_window.in_after + 1
  claim_from-counts [] q c h = cc
  claim_from-counts (i ∷ _) q c h = refl

  claim_counts :
      (q : Queue F) (c : TradeIntent F)
      → (claim_after_intent q).0 ≡ some c
      → (claim_after_intent q).1.fired_in_window.in_after ≡ q.fired_in_window.in_after + 1
  claim_counts q c h = claim_from-counts (after_intents q) q c h

module _ {F : Type 0} (s : Sorter (TradeIntent F)) (e : Surroundings F) where
  -- Suppose the first two intents that a LAST_MINUTE tick may fire are `i` and `j`, `i` is skipped,
  -- and `j`'s symbol is cancelled while `i` is tried. Then no intent for that symbol is pending any
  -- more, and yet `j` is handed to `execFn`.
  pub cancelled_still_fires :
      (now : ℕ) (until : ℤ) (q : Queue F) (i j : TradeIntent F) (rest : List (TradeIntent F))
      → fired_count q.fired_in_window WindowType.last_minute < 2
      → best_eligible WindowType.last_minute (expire now q) ≡ i ∷ j ∷ rest
      → e.result (mark_fired i) ≡ skipped
      → e.during (mark_fired i) ≡ cancels j.symbol ∷ []
      → (has_pending_symbol j.symbol
            (apply_ops s (e.during (mark_fired i)) (remove i (expire now q)))
          ≡ false)
        × (fires : List (TradeIntent F)) × ((tick_queue s e now WindowType.last_minute until q).1
            ≡ mark_fired i ∷ mark_fired j ∷ fires)
  cancelled_still_fires now until q i j rest p b r d =
      let (fires, tail) = attempts-cons s e j rest in
      let run = tick_queue_runs s e now WindowType.last_minute until q (cc) p (λ h. cc) in
      let all =
        ap (λ x. x.1) run
        ∙ fire_loop-attempts s e WindowType.last_minute
            (best_eligible WindowType.last_minute (expire now q)) (expire now q) in
      (
        rw d (cancelled s j.symbol (remove i (expire now q))),
        fires,
        all
            ∙ ap (attempts s e) b
            ∙ attempts-skipped s e i (j ∷ rest) r
            ∙ ap (◌∷◌ (mark_fired i)) tail,
      )

  loop_twice :
      (q : Queue F) (i c : TradeIntent F) (rest : List (TradeIntent F))
      → q.fired_in_window.in_after ≡ 0
      → e.during (mark_fired i) ≡ claims ∷ []
      → (claim_after_intent (remove i q)).0 ≡ some c
      → e.result (mark_fired i) ≡ executed
      → let r = fire_loop s e WindowType.after (i ∷ rest) q in
        (r.1 ≡ mark_fired i ∷ []) × (r.0.fired_in_window.in_after ≡ 2)
  unfolding fire_loop
  loop_twice q i c rest z d k r = rw (d, r) (refl, ground (arith, claim_counts (remove i q) c k))

  -- If AfterTrigger claims an intent while a tick in AFTER runs its own, two intents are fired in the
  -- one cycle: the tick's, and the one that AfterTrigger executes.
  pub after_fires_twice :
      (now : ℕ) (until : ℤ) (q : Queue F) (i c : TradeIntent F) (rest : List (TradeIntent F))
      → q.fired_in_window.in_after ≡ 0
      → best_eligible WindowType.after (expire now q) ≡ i ∷ rest
      → e.during (mark_fired i) ≡ claims ∷ []
      → (claim_after_intent (remove i (expire now q))).0 ≡ some c
      → e.result (mark_fired i) ≡ executed
      → let r = tick_queue s e now WindowType.after until q in
        (r.1 ≡ mark_fired i ∷ []) × (r.0.fired_in_window.in_after ≡ 2)
  after_fires_twice now until q i c rest z b d k r =
      let run = tick_queue_runs s e now WindowType.after until q (cc) (omega arith) (λ h. cc) in
      subst (λ x. (x.1 ≡ mark_fired i ∷ []) × (x.0.fired_in_window.in_after ≡ 2))
        (sym (run ∙ ap (λ l. fire_loop s e WindowType.after l (expire now q)) b))
        (loop_twice (expire now q) i c rest z d k r)

  -- Once an AFTER intent is claimed, no other can be claimed and a tick in AFTER fires nothing.
  pub claim_after_once :
      (now : ℕ) (until : ℤ) (q : Queue F) (i : TradeIntent F)
      → (claim_after_intent q).0 ≡ some i
      → let q' = (claim_after_intent q).1 in
        ((claim_after_intent q').0 ≡ none) × ((tick_queue s e now WindowType.after until q').1 ≡ [])
  unfolding tick_queue
  claim_after_once now until q i h = ground arith
