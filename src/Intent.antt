-- ===== src/Intent.antt =====
-- internal/intent/intent.go and queue.go: the ranked queue of trade intents. The code holds pointers:
-- `address` is the pointer, and a change of `Status` through it is a change of the record, since the
-- code takes an intent off the queue in the same step. The mutex is released while `execFn` runs, so
-- a tick is given, for each call, what other goroutines do to the queue meanwhile.
pub mod Laws
pub mod Ticks
pub mod Fires
pub mod Races
pub mod Symbols
pub mod Served
mod Tests
use Prim.Native.String.{String}
use mathlib.Core.Option
use text.Mathlib.Text.{◌==◌ as str_eq}
use binance_futures.Base.{
  ℕ, ◌+◌, Bool, true, false, not, ◌&&◌, Option, none, some, List, [], ◌∷◌, ◌++◌, ltb, leb, ◌==◌,
  if◌then◌else◌, keep, any, length,
}
use binance_futures.Base.Int.{ℤ, ltb_ℤ}
use binance_futures.Base.Sorting.{Sorter}
use binance_futures.Domain.{EntryMode, ScoredCandidate, LlmDecision}
use binance_futures.Scheduler.{WindowType}

pub data IntentStatus : Type 0 where
  pending fired expired rejected : IntentStatus

pub record TradeIntent (F : Type 0) : Type 0 where
  pub address : ℕ
  pub symbol : String
  pub candidate : ScoredCandidate F
  pub decision : LlmDecision
  pub target_entry_mode : EntryMode
  pub created_at : ℕ
  pub expires_at : ℕ
  pub status : IntentStatus

-- `firedInWindow`, whose missing keys read as 0.
pub record FiredCounts : Type 0 where
  pub in_frontrun : ℕ
  pub in_last_minute : ℕ
  pub in_after : ℕ
  pub in_closed : ℕ

abbrev pub no_counts : FiredCounts
no_counts = record { in_frontrun = 0; in_last_minute = 0; in_after = 0; in_closed = 0 }

abbrev pub fired_count : FiredCounts → WindowType → ℕ
fired_count c WindowType.frontrun = c.in_frontrun
fired_count c WindowType.last_minute = c.in_last_minute
fired_count c WindowType.after = c.in_after
fired_count c WindowType.closed = c.in_closed

abbrev pub count_fire : WindowType → FiredCounts → FiredCounts
count_fire WindowType.frontrun c = record c { in_frontrun = c.in_frontrun + 1 }
count_fire WindowType.last_minute c = record c { in_last_minute = c.in_last_minute + 1 }
count_fire WindowType.after c = record c { in_after = c.in_after + 1 }
count_fire WindowType.closed c = record c { in_closed = c.in_closed + 1 }

pub record Queue (F : Type 0) : Type 0 where
  pub intents : List (TradeIntent F)
  pub frontrun_interval : ℤ
  pub frontrun_fire_window : ℤ
  pub last_frontrun_exec : Option ℕ
  pub fired_in_window : FiredCounts

-- The rank of a window and of a target mode; the maps hold no entry for other values.
abbrev pub window_rank : WindowType → Option ℕ
window_rank WindowType.frontrun = some 0
window_rank WindowType.last_minute = some 1
window_rank WindowType.after = some 2
window_rank WindowType.closed = none

abbrev pub mode_rank : EntryMode → Option ℕ
mode_rank EntryMode.frontrun = some 0
mode_rank EntryMode.last_minute = some 1
mode_rank EntryMode.after = some 2
mode_rank (EntryMode.other _) = none

abbrev reached : Option ℕ → Option ℕ → Bool
reached (some cr) (some tr) = leb tr cr
reached _ _ = false

abbrev pub window_ready : WindowType → EntryMode → Bool
window_ready current target = reached (window_rank current) (mode_rank target)

abbrev pub is_pending : IntentStatus → Bool
is_pending pending = true
is_pending _ = false

module _ {F : Type 0} where
  abbrev pub is_expired : ℕ → TradeIntent F → Bool
  is_expired now i = ltb i.expires_at now

  abbrev pub more_confident : TradeIntent F → TradeIntent F → Bool
  more_confident i j = ltb_ℤ j.decision.confidence i.decision.confidence

  abbrev pub pending_symbol : String → TradeIntent F → Bool
  pending_symbol s i = is_pending i.status && str_eq i.symbol s

  abbrev pub eligible_in : WindowType → TradeIntent F → Bool
  eligible_in w i = is_pending i.status && window_ready w i.target_entry_mode

  abbrev pub best_eligible : WindowType → Queue F → List (TradeIntent F)
  best_eligible w q = keep (eligible_in w) q.intents

  abbrev pub expire : ℕ → Queue F → Queue F
  expire now q = record q { intents = keep (λ i. not (is_expired now i)) q.intents }

  abbrev pub remove : TradeIntent F → Queue F → Queue F
  remove target q = record q { intents = keep (λ i. not (i.address == target.address)) q.intents }

  abbrev pub mark_fired : TradeIntent F → TradeIntent F
  mark_fired i = record i { status = fired }

  pub has_pending_intent : Queue F → Bool
  has_pending_intent q = any (λ i. is_pending i.status) q.intents

  pub has_pending_symbol : String → Queue F → Bool
  has_pending_symbol s q = any (pending_symbol s) q.intents

  pub pending_count : Queue F → ℕ
  pending_count q = length (keep (λ i. is_pending i.status) q.intents)

  abbrev pub cancel_by_symbol : String → Queue F → Queue F
  cancel_by_symbol s q = record q { intents = keep (λ i. not (pending_symbol s i)) q.intents }

  abbrev pub clear_after_settlement : Queue F → Queue F
  clear_after_settlement q = record q {
    intents = [];
    last_frontrun_exec = none;
    fired_in_window = no_counts;
  }

  -- The first part of `ClaimAfterIntent`, `PeekAfterSymbol` and `HasAfterIntent`.
  abbrev pub after_intents : Queue F → List (TradeIntent F)
  after_intents q =
      if leb 1 q.fired_in_window.in_after then [] else best_eligible WindowType.after q

  abbrev claim_from : List (TradeIntent F) → Queue F → Option (TradeIntent F) × Queue F
  claim_from [] q = (none, q)
  claim_from (i ∷ _) q = (
    some (mark_fired i),
    record (remove i q) { fired_in_window = count_fire WindowType.after q.fired_in_window },
  )

  abbrev pub claim_after_intent : Queue F → Option (TradeIntent F) × Queue F
  claim_after_intent q = claim_from (after_intents q) q

  abbrev first_symbol : List (TradeIntent F) → Option String
  first_symbol [] = none
  first_symbol (i ∷ _) = some i.symbol

  pub peek_after_symbol : Queue F → Option String
  peek_after_symbol q = first_symbol (after_intents q)

  pub has_after_intent : Queue F → Bool
  has_after_intent q = not (length (after_intents q) == 0)

  -- The `for` of `Enqueue`: the first pending intent for the symbol gives way.
  pub replace_pending : TradeIntent F → List (TradeIntent F) → Option (List (TradeIntent F))
  replace_pending i [] = none
  replace_pending i (e ∷ es) =
      if pending_symbol i.symbol e then some (i ∷ es) else Option.map (◌∷◌ e) (replace_pending i es)

  pub merge : TradeIntent F → List (TradeIntent F) → List (TradeIntent F)
  unfolding replace_pending
  merge i es = elim (replace_pending i es) [ none ↦ es ++ i ∷ [] | some replaced ↦ replaced ]

-- How `execFn` ends: `domain.ErrSkipped`, another error, or no error.
pub data ExecResult : Type 0 where
  executed skipped failed : ExecResult

-- What other goroutines may do to the queue while `execFn` runs.
pub data QueueOp (F : Type 0) : Type 0 where
  enqueues : TradeIntent F → QueueOp F
  cancels : String → QueueOp F
  claims : QueueOp F
  clears : QueueOp F

-- One tick's surroundings: for each intent that is executed, the result of `execFn`, what happens to
-- the queue during the call, and the time at its start.
pub record Surroundings (F : Type 0) : Type 0 where
  pub result : TradeIntent F → ExecResult
  pub during : TradeIntent F → List (QueueOp F)
  pub started : TradeIntent F → ℕ

module _ {F : Type 0} (s : Sorter (TradeIntent F)) where
  pub enqueue : TradeIntent F → Queue F → Queue F
  unfolding merge
  enqueue i q = record q { intents = s.sort more_confident (merge i q.intents) }

  abbrev pub apply_op : QueueOp F → Queue F → Queue F
  apply_op (enqueues i) q = enqueue i q
  apply_op (cancels symbol) q = cancel_by_symbol symbol q
  apply_op claims q = (claim_after_intent q).1
  apply_op clears q = clear_after_settlement q

  pub apply_ops : List (QueueOp F) → Queue F → Queue F
  apply_ops [] q = q
  apply_ops (o ∷ os) q = apply_ops os (apply_op o q)

  module _ (e : Surroundings F) where
    -- What the two firing loops do before they release the mutex.
    abbrev pub take_off : WindowType → TradeIntent F → Queue F → Queue F
    take_off WindowType.frontrun i q = record (remove i q) {
      last_frontrun_exec = some (e.started (mark_fired i));
    }
    take_off _ i q = remove i q

    -- The `for` of `tickFrontrunLocked` and of `tickTransitionLocked` over its snapshot of the
    -- eligible intents: the queue, and the intents that were handed to `execFn`. `settle_exec` is
    -- what follows the call: `continue` with the rest, or count the fire and return.
    abbrev settle_exec :
        WindowType
        → TradeIntent F
        → Queue F
        → Queue F × List (TradeIntent F)
        → ExecResult
        → Queue F × List (TradeIntent F)
    settle_exec w i q (q', fires) skipped = (q', mark_fired i ∷ fires)
    settle_exec w i q _ _ =
        (record q { fired_in_window = count_fire w q.fired_in_window }, mark_fired i ∷ [])

    pub fire_loop : WindowType → List (TradeIntent F) → Queue F → Queue F × List (TradeIntent F)
    unfolding apply_ops
    fire_loop w [] q = (q, [])
    fire_loop w (i ∷ rest) q =
        let q' = apply_ops (e.during (mark_fired i)) (take_off w i q) in
        settle_exec w i q' (fire_loop w rest q') (e.result (mark_fired i))

    pub tick_frontrun : ℤ → Queue F → Queue F × List (TradeIntent F)
    unfolding fire_loop
    tick_frontrun time_until_funding q =
        if leb 2 (fired_count q.fired_in_window WindowType.frontrun)
        then (q, [])
        else if ltb_ℤ q.frontrun_fire_window time_until_funding
        then (q, [])
        else fire_loop WindowType.frontrun (best_eligible WindowType.frontrun q) q

    abbrev pub fire_limit : WindowType → ℕ
    fire_limit WindowType.after = 1
    fire_limit _ = 2

    pub tick_transition : WindowType → Queue F → Queue F × List (TradeIntent F)
    unfolding fire_loop
    tick_transition w q =
        if leb (fire_limit w) (fired_count q.fired_in_window w)
        then (q, [])
        else fire_loop w (best_eligible w q) q

    pub tick_queue : ℕ → WindowType → ℤ → Queue F → Queue F × List (TradeIntent F)
    unfolding tick_frontrun tick_transition
    tick_queue now w time_until_funding q =
        let live = expire now q in
        elim w [
          | WindowType.frontrun ↦ tick_frontrun time_until_funding live
          | WindowType.closed ↦ (live, [])
          | other ↦ tick_transition other live
        ]
