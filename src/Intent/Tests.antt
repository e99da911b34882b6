-- ===== src/Intent/Tests.antt =====
-- Examples for the intent queue: three intents, a sort by insertion, and what happens during a call.
use binance_futures.Base.{◌≡◌, refl, arith, false, List, [], ◌∷◌, All}
use text.Mathlib.TextEquality.{eq_iff}
use binance_futures.Base.Int.{ℤ, pos}
use binance_futures.Base.Sorting.{Ordered}
use binance_futures.Base.Sorting.Insertion.{insertion, insertion-IsSort}
use binance_futures.Domain.{EntryMode}
use binance_futures.Scheduler.{WindowType}
use binance_futures.Samples.{intent, queue_of}
use binance_futures.Intent.{
  more_confident, TradeIntent, Queue, Surroundings, enqueues, cancels, claims, executed, skipped,
  enqueue, tick_queue, expire, mark_fired, remove, has_pending_symbol, apply_ops,
}
use binance_futures.Intent.Laws.{IsValid, enqueue-IsValid}
use binance_futures.Intent.Ticks.{IsWithinLimits, tick_queue-IsValid, tick_queue-IsWithinLimits}
use binance_futures.Intent.Fires.{
  FiredIn, FiresBest, OnlyLastRuns, tick_queue_fires, tick_queue-FiresBest,
}
use binance_futures.Intent.Races.{cancelled_still_fires, after_fires_twice}

abbrev first : TradeIntent ℤ
first = intent 1 "BTCUSDT" EntryMode.last_minute 90

abbrev second_best : TradeIntent ℤ
second_best = intent 2 "ETHUSDT" EntryMode.last_minute 80

abbrev after_one : TradeIntent ℤ
after_one = intent 3 "SOLUSDT" EntryMode.after 70

abbrev after_two : TradeIntent ℤ
after_two = intent 4 "XRPUSDT" EntryMode.after 60

abbrev two : Queue ℤ
two = queue_of (first ∷ second_best ∷ [])

abbrev two_after : Queue ℤ
two_after = queue_of (after_one ∷ after_two ∷ [])

two-IsValid : IsValid two
two-IsValid = record {
  all_pending = (refl, (refl, tt));
  distinct = ((λ h. ground (arith, eq_iff "BTCUSDT" "ETHUSDT", h), tt), (tt, tt));
  ranked = ((refl, tt), (tt, tt));
}

-- Every call succeeds, and another intent arrives meanwhile.
abbrev busy : Surroundings ℤ
busy = record { result = λ _. executed; during = λ _. enqueues after_two ∷ []; started = λ _. 10 }

-- The first call is skipped, and the second symbol is cancelled meanwhile.
abbrev cancelling : Surroundings ℤ
cancelling = record {
  result = λ _. skipped;
  during = λ _. cancels "ETHUSDT" ∷ [];
  started = λ _. 10;
}

-- AfterTrigger claims an intent during the call.
abbrev claiming : Surroundings ℤ
claiming = record { result = λ _. executed; during = λ _. claims ∷ []; started = λ _. 10 }

enqueue-IsValid_example : IsValid (enqueue insertion after_one two)
enqueue-IsValid_example = enqueue-IsValid insertion insertion-IsSort after_one refl two-IsValid

tick_queue-IsValid_example :
    IsValid (tick_queue insertion busy 10 WindowType.last_minute (pos 120) two).0
tick_queue-IsValid_example =
    tick_queue-IsValid insertion busy insertion-IsSort (λ i. (refl, tt)) 10 WindowType.last_minute
      (pos 120) two-IsValid

tick_queue-IsWithinLimits_example :
    IsWithinLimits
      (tick_queue insertion busy 10 WindowType.last_minute (pos 120) two).0.fired_in_window
tick_queue-IsWithinLimits_example =
    tick_queue-IsWithinLimits insertion busy 10 WindowType.last_minute (pos 120) two
      (λ _ i. (tt, tt))
      (record { frontrun_le = omega arith; last_minute_le = omega arith; after_le = omega arith })

tick_queue_fires_example :
    let fires = (tick_queue insertion busy 10 WindowType.last_minute (pos 120) two).1 in
    All (FiredIn insertion busy WindowType.last_minute 10) fires
    × Ordered more_confident fires
    × OnlyLastRuns insertion busy fires
tick_queue_fires_example =
    tick_queue_fires insertion busy 10 WindowType.last_minute (pos 120) two two-IsValid

tick_queue-FiresBest_example :
    FiresBest insertion busy
      (first ∷ second_best ∷ [])
      (tick_queue insertion busy 10 WindowType.last_minute (pos 120) two).1
tick_queue-FiresBest_example =
    tick_queue-FiresBest insertion busy 10 WindowType.last_minute (pos 120) two two-IsValid
      (λ h. cc) (omega arith) (λ h. cc)

cancelled_still_fires_example :
    (has_pending_symbol "ETHUSDT"
        (apply_ops insertion (cancels "ETHUSDT" ∷ []) (remove first (expire 10 two)))
      ≡ false)
    × (fires : List (TradeIntent ℤ)) × ((tick_queue insertion cancelling 10 WindowType.last_minute
          (pos 120)
          two).1
        ≡ mark_fired first ∷ mark_fired second_best ∷ fires)
cancelled_still_fires_example =
    cancelled_still_fires insertion cancelling 10 (pos 120) two first second_best [] (omega arith)
      refl refl refl

after_fires_twice_example :
    let r = tick_queue insertion claiming 10 WindowType.after (pos 120) two_after in
    (r.1 ≡ mark_fired after_one ∷ []) × (r.0.fired_in_window.in_after ≡ 2)
after_fires_twice_example =
    after_fires_twice insertion claiming 10 (pos 120) two_after after_one (mark_fired after_two)
      (after_two ∷ []) refl refl refl refl refl
