-- ===== src/Intent/Served.antt =====
-- A tick after `Enqueue`: an intent that the window reaches is not left waiting for a less confident
-- one.
use binance_futures.Base.{
  ℕ, ◌≡◌, ◌≢◌, ◌<◌, ◌≤◌, ap, ◌∙◌, Bool, true, false, not, ◌&&◌, List, [], ◌∷◌, arith, keep, any,
  All,
}
use binance_futures.Base.Int.{ℤ, ◌≤ℤ◌}
use binance_futures.Base.Sorting.{Sorter, IsSort}
use binance_futures.Scheduler.{WindowType}
use binance_futures.Intent.{
  TradeIntent, Queue, Surroundings, is_pending, is_expired, more_confident, eligible_in,
  best_eligible, expire, enqueue, merge, fired_count, fire_limit, tick_queue, window_ready,
}
use binance_futures.Intent.Laws.{IsValid, enqueue-IsValid}
use binance_futures.Intent.Fires.{FiresBest, tick_queue-FiresBest}
use binance_futures.Intent.Symbols.{any-perm}

module _ {F : Type 0} where
  -- The first that is fired is at least as confident as `i`.
  abbrev pub Serves : TradeIntent F → List (TradeIntent F) → Type 0
  Serves i [] = ⊥
  Serves i (first ∷ rest) = i.decision.confidence ≤ℤ first.decision.confidence

  abbrev as_confident : TradeIntent F → TradeIntent F → Bool
  as_confident i j = not (more_confident i j)

  abbrev serves_now : ℕ → WindowType → TradeIntent F → TradeIntent F → Bool
  serves_now now w i j = (not (is_expired now j) && eligible_in w j) && as_confident i j

  any-merge_self :
      (p : TradeIntent F → Bool) (i : TradeIntent F) (xs : List (TradeIntent F))
      → p i ≡ true
      → any p (merge i xs) ≡ true
  unfolding merge
  any-merge_self p i [] h = ground arith
  any-merge_self p i (x ∷ xs) h = ground (arith, any-merge_self p i xs h)

  any-live :
      (now : ℕ) (w : WindowType) (i : TradeIntent F) (xs : List (TradeIntent F))
      → any (serves_now now w i) xs ≡ true
      → any (as_confident i) (keep (eligible_in w) (keep (λ j. not (is_expired now j)) xs)) ≡ true
  any-live now w i [] h = cc
  any-live now w i (x ∷ xs) h = ground (arith, any-live now w i xs)

  as_confident-All :
      (i first : TradeIntent F) (xs : List (TradeIntent F))
      → All (λ j. more_confident j first ≡ false) xs
      → any (as_confident i) xs ≡ true
      → i.decision.confidence ≤ℤ first.decision.confidence
  as_confident-All i first [] a h = cc
  as_confident-All i first (x ∷ xs) (a, rest) h = ground (arith, as_confident-All i first xs rest)

module _ {F : Type 0} (s : Sorter (TradeIntent F)) (laws : IsSort s) (e : Surroundings F) where
  FiresBest-Serves :
      (i : TradeIntent F) (eligible fires : List (TradeIntent F))
      → any (as_confident i) eligible ≡ true
      → FiresBest s e eligible fires
      → Serves i fires
  FiresBest-Serves i [] fires h b = cc
  FiresBest-Serves i (x ∷ xs) [] h b = b
  FiresBest-Serves i (x ∷ xs) (first ∷ rest) h (same, best) =
      let shared = ap (λ (j : TradeIntent F). j.decision.confidence) same in
      ground (arith, shared, as_confident-All i first xs best)

  -- An intent put on a well-formed queue which has not expired, and which the window reaches, is
  -- served by the next tick of that window, while its limit is not reached and, in FRONTRUN, the
  -- settlement is near enough: that tick fires, and first an intent at least as confident.
  pub enqueue-Serves :
      (now : ℕ) (w : WindowType) (until : ℤ) (i : TradeIntent F) (q : Queue F)
      → is_pending i.status ≡ true
      → IsValid q
      → window_ready w i.target_entry_mode ≡ true
      → now ≤ i.expires_at
      → w ≢ WindowType.closed
      → fired_count q.fired_in_window w < fire_limit s e w
      → (w ≡ WindowType.frontrun → until ≤ℤ q.frontrun_fire_window)
      → Serves i (tick_queue s e now w until (enqueue s i q)).1
  unfolding enqueue
  enqueue-Serves now w until i q p v r l c o h =
      FiresBest-Serves i (best_eligible w (expire now (enqueue s i q))) _
        (any-live now w i _ (
          any-perm (serves_now now w i) (laws.permutes more_confident (merge i q.intents))
          ∙ any-merge_self (serves_now now w i) i q.intents (ground (arith, p, r))))
        (tick_queue-FiresBest s e now w until (enqueue s i q) (enqueue-IsValid s laws i p v) c o h)
