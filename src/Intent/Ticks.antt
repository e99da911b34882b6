-- ===== src/Intent/Ticks.antt =====
-- What a tick of the intent queue fires, and that it keeps the queue well formed and within the
-- limits of fires for each window, whatever other goroutines do meanwhile.
use binance_futures.Base.{
  ℕ, ◌≤◌, ◌<◌, ◌≡◌, ◌≢◌, refl, inl, inr, ◌⊎◌, not, List, [], ◌∷◌, arith, All,
}
use binance_futures.Base.Int.{ℤ, ◌≤ℤ◌}
use binance_futures.Base.Sorting.{Sorter, IsSort}
use binance_futures.Scheduler.{WindowType}
use binance_futures.Intent.{
  TradeIntent, Queue, QueueOp, FiredCounts, Surroundings, ExecResult, skipped, executed, failed,
  enqueues, cancels, claims, clears, apply_op, apply_ops, take_off, settle_exec, fire_loop,
  fire_limit, enqueue, fired_count, tick_queue, expire, best_eligible, is_expired, mark_fired,
}
use binance_futures.Intent.Laws.{
  IsValid, IsFresh, apply_ops-IsValid, remove-IsValid, same-IsValid, keep-IsValid,
}

module _ {F : Type 0} (s : Sorter (TradeIntent F)) (e : Surroundings F) where
  -- A tick expires, and then stops or runs the loop below the window's limit.
  pub tick_queue_cases :
      (now : ℕ) (w : WindowType) (until : ℤ) (q : Queue F)
      → let live = expire now q in
        (tick_queue s e now w until q ≡ (live, []))
        ⊎ ((fired_count live.fired_in_window w < fire_limit s e w)
            × (w ≢ WindowType.closed)
            × (tick_queue s e now w until q ≡ fire_loop s e w (best_eligible w live) live))
  unfolding tick_queue
  tick_queue_cases now WindowType.closed until q = inl refl
  tick_queue_cases now w until q = ground arith

  -- Below its limit a window runs the loop, FRONTRUN once the funding is near enough.
  pub tick_queue_runs :
      (now : ℕ) (w : WindowType) (until : ℤ) (q : Queue F)
      → w ≢ WindowType.closed
      → fired_count q.fired_in_window w < fire_limit s e w
      → (w ≡ WindowType.frontrun → until ≤ℤ q.frontrun_fire_window)
      → tick_queue s e now w until q
        ≡ fire_loop s e w (best_eligible w (expire now q)) (expire now q)
  unfolding tick_queue
  tick_queue_runs now WindowType.closed until q o p h = absurd (o refl)
  tick_queue_runs now WindowType.frontrun until q o p h = ground (arith, h refl)
  tick_queue_runs now w until q o p h = ground arith

  module _ (laws : IsSort s) (fresh : (i : TradeIntent F) → All IsFresh (e.during i)) where
    take_off-IsValid :
        (w : WindowType) (i : TradeIntent F) {q : Queue F}
        → IsValid q
        → IsValid (take_off s e w i q)
    take_off-IsValid WindowType.frontrun i {q} v = same-IsValid refl (remove-IsValid i v)
    take_off-IsValid _ i v = remove-IsValid i v

    fire_loop-IsValid :
        (w : WindowType) (l : List (TradeIntent F)) {q : Queue F}
        → IsValid q
        → IsValid (fire_loop s e w l q).0
    unfolding fire_loop
    fire_loop-IsValid w [] v = v
    fire_loop-IsValid w (i ∷ rest) {q} v =
        let q' = apply_ops s (e.during (mark_fired i)) (take_off s e w i q) in
        let v' =
          apply_ops-IsValid s laws (e.during (mark_fired i)) (fresh (mark_fired i))
            (take_off-IsValid w i v) in
        elim (e.result (mark_fired i))
          as (λ r. IsValid (settle_exec s e w i q' (fire_loop s e w rest q') r).0) [
            | skipped ↦ fire_loop-IsValid w rest v'
            | executed ↦ same-IsValid refl v'
            | failed ↦ same-IsValid refl v'
          ]

    -- A tick keeps the queue well formed, whatever intents other goroutines enqueue, cancel, claim or
    -- clear while `execFn` runs, if those that are enqueued are pending.
    pub tick_queue-IsValid :
        (now : ℕ) (w : WindowType) (until : ℤ) {q : Queue F}
        → IsValid q
        → IsValid (tick_queue s e now w until q).0
    tick_queue-IsValid now w until {q} v =
        let live : IsValid (expire now q) = keep-IsValid (λ i. not (is_expired now i)) v in
        elim (tick_queue_cases now w until q) [
          | inl stop ↦ rw stop live
          | inr (_, _, run) ↦ rw run (fire_loop-IsValid w (best_eligible w (expire now q)) live)
        ]

-- The limits of fires in a funding cycle.
pub record IsWithinLimits (c : FiredCounts) : Type 0 where
  pub frontrun_le : c.in_frontrun ≤ 2
  pub last_minute_le : c.in_last_minute ≤ 2
  pub after_le : c.in_after ≤ 1

abbrev pub IsNoClaim : {F : Type 0} → QueueOp F → Type 0
IsNoClaim claims = ⊥
IsNoClaim _ = Unit

-- No count grows but that of AFTER, which grows to its limit at most, and not under `Quiet`.
abbrev NoMoreFires : Type 0 → FiredCounts → FiredCounts → Type 0
NoMoreFires Quiet c c' =
    (c'.in_frontrun ≤ c.in_frontrun)
    × (c'.in_last_minute ≤ c.in_last_minute)
    × (c.in_after ≤ 1 → c'.in_after ≤ 1)
    × (Quiet → c'.in_after ≤ c.in_after)

NoMoreFires-within :
    {Quiet : Type 0} {c c' : FiredCounts}
    → NoMoreFires Quiet c c'
    → IsWithinLimits c
    → IsWithinLimits c'
NoMoreFires-within n h = record {
  frontrun_le = omega arith;
  last_minute_le = omega arith;
  after_le = n.2 h.after_le;
}

NoMoreFires-below :
    (w : WindowType) {Quiet : Type 0} (c c' : FiredCounts) (limit : ℕ)
    → w ≢ WindowType.closed
    → (w ≡ WindowType.after → Quiet)
    → NoMoreFires Quiet c c'
    → fired_count c w < limit
    → fired_count c' w < limit
NoMoreFires-below WindowType.frontrun c c' limit o q n h = omega arith
NoMoreFires-below WindowType.last_minute c c' limit o q n h = omega arith
NoMoreFires-below WindowType.after c c' limit o q n h = let le = n.3 (q refl) in omega arith
NoMoreFires-below WindowType.closed c c' limit o q n h = absurd (o refl)

module _ {F : Type 0} (s : Sorter (TradeIntent F)) where
  -- No count grows but that of AFTER, by a claim, which keeps it within its limit.
  apply_op-counts :
      (o : QueueOp F) (q : Queue F)
      → NoMoreFires (IsNoClaim o) q.fired_in_window (apply_op s o q).fired_in_window
  unfolding enqueue
  apply_op-counts (enqueues i) q = ground arith
  apply_op-counts (cancels t) q = ground arith
  apply_op-counts clears q = ground arith
  apply_op-counts claims q = ground arith

  apply_ops-counts :
      (os : List (QueueOp F)) (q : Queue F)
      → NoMoreFires (All IsNoClaim os) q.fired_in_window (apply_ops s os q).fired_in_window
  unfolding apply_ops
  apply_ops-counts [] q = ground arith
  apply_ops-counts (o ∷ os) q =
      ground (arith, apply_op-counts o q, apply_ops-counts os (apply_op s o q))

  module _ (e : Surroundings F) where
    take_off-counts :
        (w : WindowType) (i : TradeIntent F) (q : Queue F)
        → (take_off s e w i q).fired_in_window ≡ q.fired_in_window
    take_off-counts WindowType.frontrun i q = refl
    take_off-counts _ i q = refl

    settle_exec-IsWithinLimits :
        (w : WindowType) (i : TradeIntent F) (q : Queue F) (rest : Queue F × List (TradeIntent F))
        (r : ExecResult)
        → fired_count q.fired_in_window w < fire_limit s e w
        → IsWithinLimits q.fired_in_window
        → (fired_count q.fired_in_window w < fire_limit s e w
            → IsWithinLimits q.fired_in_window
            → IsWithinLimits rest.0.fired_in_window)
        → IsWithinLimits (settle_exec s e w i q rest r).0.fired_in_window
    settle_exec-IsWithinLimits w i q rest skipped p h k = k p h
    settle_exec-IsWithinLimits w i q rest _ p h k = ground arith

    fire_loop-IsWithinLimits :
        (w : WindowType) (l : List (TradeIntent F)) (q : Queue F)
        → (w ≡ WindowType.after → (i : TradeIntent F) → All IsNoClaim (e.during i))
        → w ≢ WindowType.closed
        → fired_count q.fired_in_window w < fire_limit s e w
        → IsWithinLimits q.fired_in_window
        → IsWithinLimits (fire_loop s e w l q).0.fired_in_window
    unfolding fire_loop
    fire_loop-IsWithinLimits w [] q n o p h = h
    fire_loop-IsWithinLimits w (i ∷ rest) q n o p h =
        let during = e.during (mark_fired i) in
        let off = take_off s e w i q in
        let counts = apply_ops-counts during off in
        let off_counts : off.fired_in_window ≡ q.fired_in_window = take_off-counts w i q in
        let within : IsWithinLimits off.fired_in_window = rw off_counts h in
        let quiet : w ≡ WindowType.after → All IsNoClaim during = λ a. n a (mark_fired i) in
        settle_exec-IsWithinLimits w i (apply_ops s during off) _ (e.result (mark_fired i))
          (NoMoreFires-below w off.fired_in_window (apply_ops s during off).fired_in_window
            (fire_limit s e w) o quiet counts (rw off_counts p))
          (NoMoreFires-within counts within)
          (λ a b. fire_loop-IsWithinLimits w rest (apply_ops s during off) n o a b)

    -- A tick keeps the fires of a cycle within two for FRONTRUN, two for LAST_MINUTE and one for
    -- AFTER, if no other goroutine claims an AFTER intent while a tick in AFTER runs `execFn`. The
    -- limits are those of the code; its comments allow one fire in each window.
    pub tick_queue-IsWithinLimits :
        (now : ℕ) (w : WindowType) (until : ℤ) (q : Queue F)
        → (w ≡ WindowType.after → (i : TradeIntent F) → All IsNoClaim (e.during i))
        → IsWithinLimits q.fired_in_window
        → IsWithinLimits (tick_queue s e now w until q).0.fired_in_window
    tick_queue-IsWithinLimits now w until q n h = elim (tick_queue_cases s e now w until q) [
      | inl stop ↦ rw stop h
      | inr (p, o, run) ↦
          rw run
            (fire_loop-IsWithinLimits w (best_eligible w (expire now q)) (expire now q) n o p h)
    ]
