-- ===== src/Intent/Fires.antt =====
-- Which intents a tick hands to `execFn`, and in what order.
use binance_futures.Base.{
  ℕ, ◌≤◌, ◌<◌, ◌≡◌, ◌≢◌, refl, inl, inr, Bool, true, false, not, List, [], ◌∷◌, arith, keep, All,
  All-keep,
}
use binance_futures.Base.Int.{ℤ, ◌≤ℤ◌}
use binance_futures.Base.Sorting.{Sorter, Ordered}
use binance_futures.Scheduler.{WindowType}
use binance_futures.Intent.{
  TradeIntent, Queue, IntentStatus, Surroundings, skipped, executed, failed, more_confident,
  apply_ops, take_off, fire_loop, fire_limit, fired_count, tick_queue, expire, best_eligible,
  eligible_in, is_expired, mark_fired, window_ready,
}
use binance_futures.Intent.Laws.{IsValid}
use binance_futures.Intent.Ticks.{tick_queue_cases, tick_queue_runs}

module _ {F : Type 0} (s : Sorter (TradeIntent F)) (e : Surroundings F) where
  -- The loop alone: hand over one intent after the other until one is not skipped.
  pub attempts : List (TradeIntent F) → List (TradeIntent F)
  attempts [] = []
  attempts (i ∷ rest) = elim (e.result (mark_fired i)) [
    | skipped ↦ mark_fired i ∷ attempts rest
    | _ ↦ mark_fired i ∷ []
  ]

  pub fire_loop-attempts :
      (w : WindowType) (l : List (TradeIntent F)) (q : Queue F)
      → (fire_loop s e w l q).1 ≡ attempts l
  unfolding fire_loop attempts
  fire_loop-attempts w [] q = refl
  fire_loop-attempts w (i ∷ rest) q = ground (
    arith,
    fire_loop-attempts w rest (apply_ops s (e.during (mark_fired i)) (take_off s e w i q)),
  )

  pub attempts-cons :
      (i : TradeIntent F) (rest : List (TradeIntent F))
      → (fires : List (TradeIntent F)) × (attempts (i ∷ rest) ≡ mark_fired i ∷ fires)
  unfolding attempts
  attempts-cons i rest =
      elim (e.result (mark_fired i))
        as (λ r.
          (fires : List (TradeIntent F)) × (◌≡◌ {A = List (TradeIntent F)}
            (elim r [ skipped ↦ mark_fired i ∷ attempts rest | _ ↦ mark_fired i ∷ [] ])
            (mark_fired i ∷ fires))) [
              | skipped ↦ (attempts rest, refl)
              | executed ↦ ([], refl)
              | failed ↦ ([], refl)
            ]

  pub attempts-skipped :
      (i : TradeIntent F) (rest : List (TradeIntent F))
      → e.result (mark_fired i) ≡ skipped
      → attempts (i ∷ rest) ≡ mark_fired i ∷ attempts rest
  unfolding attempts
  attempts-skipped i rest h = ground arith

  -- All but the last were skipped.
  abbrev pub OnlyLastRuns : List (TradeIntent F) → Type 0
  OnlyLastRuns [] = Unit
  OnlyLastRuns (i ∷ []) = Unit
  OnlyLastRuns (i ∷ j ∷ rest) = (e.result i ≡ skipped) × OnlyLastRuns (j ∷ rest)

  OnlyLastRuns-cons :
      (i : TradeIntent F) (l : List (TradeIntent F))
      → e.result i ≡ skipped
      → OnlyLastRuns l
      → OnlyLastRuns (i ∷ l)
  OnlyLastRuns-cons i [] p h = tt
  OnlyLastRuns-cons i (j ∷ l) p h = (p, h)

  attempts-OnlyLastRuns : (l : List (TradeIntent F)) → OnlyLastRuns (attempts l)
  unfolding attempts
  attempts-OnlyLastRuns [] = tt
  attempts-OnlyLastRuns (i ∷ rest) =
      ground (arith, attempts-OnlyLastRuns rest, OnlyLastRuns-cons (mark_fired i) (attempts rest))

  attempts-All {κ} :
      (P : TradeIntent F → Type κ) (l : List (TradeIntent F))
      → All (λ i. P (mark_fired i)) l
      → All P (attempts l)
  unfolding attempts
  attempts-All P [] h = tt
  attempts-All P (i ∷ rest) h = ground (arith, attempts-All P rest h.1)

  attempts-Ordered :
      (l : List (TradeIntent F)) → Ordered more_confident l → Ordered more_confident (attempts l)
  unfolding attempts
  attempts-Ordered [] h = tt
  attempts-Ordered (i ∷ rest) h =
      ground
        (arith, attempts-Ordered rest h.1, attempts-All (λ y. more_confident y i ≡ false) rest h.0)

  -- What is fired was eligible in this window and is not past its expiry.
  abbrev pub FiredIn : WindowType → ℕ → TradeIntent F → Type 0
  FiredIn w now i =
      (i.status ≡ IntentStatus.fired)
      × (window_ready w i.target_entry_mode ≡ true)
      × (now ≤ i.expires_at)

  live-FiredIn :
      (w : WindowType) (now : ℕ) (l : List (TradeIntent F))
      → All
          (λ i. FiredIn w now (mark_fired i))
          (keep (eligible_in w) (keep (λ i. not (is_expired now i)) l))
  live-FiredIn w now [] = tt
  live-FiredIn w now (i ∷ l) = ground (arith, live-FiredIn w now l)

  Ordered-keep :
      (p : TradeIntent F → Bool) (l : List (TradeIntent F))
      → Ordered more_confident l
      → Ordered more_confident (keep p l)
  Ordered-keep p [] h = tt
  Ordered-keep p (x ∷ l) (a, b) =
      ground (arith, All-keep (λ y. more_confident y x ≡ false) p l a, Ordered-keep p l b)

  -- The intents that one tick hands to `execFn`, in their order: each was eligible in the window
  -- and not expired, no one comes before a more confident one, and all but the last were skipped
  -- (so at most one runs).
  pub tick_queue_fires :
      (now : ℕ) (w : WindowType) (until : ℤ) (q : Queue F)
      → IsValid q
      → let fires = (tick_queue s e now w until q).1 in
        All (FiredIn w now) fires × Ordered more_confident fires × OnlyLastRuns fires
  tick_queue_fires now w until q v = elim (tick_queue_cases s e now w until q) [
    | inl stop ↦ rw stop (tt, tt, tt)
    | inr (_, _, run) ↦
        let live = best_eligible w (expire now q) in
        rw (run, fire_loop-attempts w live (expire now q))
          (
            attempts-All (FiredIn w now) live (live-FiredIn w now q.intents),
            attempts-Ordered live (
                Ordered-keep (eligible_in w) _
                  (Ordered-keep (λ i. not (is_expired now i)) q.intents v.ranked)),
            attempts-OnlyLastRuns live,
          )
  ]

  -- `fires` begins with the first of `eligible`, and nothing else there is more confident.
  abbrev pub FiresBest : List (TradeIntent F) → List (TradeIntent F) → Type 0
  FiresBest [] fires = fires ≡ []
  FiresBest (i ∷ rest) [] = ⊥
  FiresBest (i ∷ rest) (f ∷ fires) = (f ≡ mark_fired i) × All (λ j. more_confident j f ≡ false) rest

  attempts-FiresBest :
      (l : List (TradeIntent F)) → Ordered more_confident l → FiresBest l (attempts l)
  unfolding attempts
  attempts-FiresBest [] h = refl
  attempts-FiresBest (i ∷ rest) h = ground arith

  -- While the limit of the window is not reached, and in FRONTRUN once the settlement is no further
  -- than the fire window, a tick fires nothing only if no unexpired intent is eligible; otherwise
  -- the first that it fires is an eligible one than which no other is more confident. The interval of
  -- FRONTRUN in the comments of the code is not waited for, and the limit of the code is two fires.
  pub tick_queue-FiresBest :
      (now : ℕ) (w : WindowType) (until : ℤ) (q : Queue F)
      → IsValid q
      → w ≢ WindowType.closed
      → fired_count q.fired_in_window w < fire_limit s e w
      → (w ≡ WindowType.frontrun → until ≤ℤ q.frontrun_fire_window)
      → FiresBest (best_eligible w (expire now q)) (tick_queue s e now w until q).1
  tick_queue-FiresBest now w until q v o p h =
      let live = best_eligible w (expire now q) in
      rw (tick_queue_runs s e now w until q o p h, fire_loop-attempts w live (expire now q))
        (attempts-FiresBest live (
          Ordered-keep (eligible_in w) _
            (Ordered-keep (λ i. not (is_expired now i)) q.intents v.ranked)))
