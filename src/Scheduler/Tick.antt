-- ===== src/Scheduler/Tick.antt =====
-- internal/scheduler/scheduler.go: one tick of the scheduler, with the scan intervals of
-- internal/config/config.go. The clock is read at each place where the code reads it.
pub mod Scans
use Prim.Native.String.{String}
use text.Mathlib.Text.{◌==◌ as str_eq}
use binance_futures.Base.{
  ℕ, ◌+◌, ◌-◌, ◌*◌, ◌/◌, ◌%◌, Bool, true, false, not, ◌&&◌, Option, none, some, ◌==◌, if◌then◌else◌,
}
use binance_futures.Base.Int.{ℤ, pos, negsuc, sub_ℕ, ltb_ℤ, leb_ℤ}
use binance_futures.Scheduler.{
  WindowType, last_minute, after, closed, second, minute, next_funding_time, current_window,
}

pub record SchedulerConfig : Type 0 where
  pub scan_interval_early : String
  pub scan_interval_late : String
  pub scan_interval : String
  pub window_start_minutes : ℕ

-- The readings of `time.Now()` in the order of the code.
pub record Readings : Type 0 where
  pub at_window : ℕ
  pub at_queue : ℕ
  pub at_next : ℕ
  pub at_until : ℕ
  pub at_lock : ℕ

pub data QueueCall : Type 0 where
  clear_after_settlement : QueueCall
  tick_queue : WindowType → ℤ → QueueCall

-- What one tick asks of the rest: the call of the queue, the lock key (a time in milliseconds)
-- with its time to live, and the window for which `scanFn` is called.
pub record TickEffects : Type 0 where
  pub queue : Option QueueCall
  pub lock : Option (ℕ × ℤ)
  pub scan : Option WindowType

-- `t.Truncate(d)` counts from Go's zero time, 62,135,596,800 s before the Unix epoch.
pub truncate : ℕ → ℤ → ℕ
truncate t (pos d) = if d == 0 then t else t - (t + 62_135_596_800 * second) % d
truncate t (negsuc _) = t

-- `until > 0 && until <= 30*time.Second`
pub in_freeze : Readings → Bool
in_freeze r =
    let until = sub_ℕ (next_funding_time r.at_next) r.at_until in
    ltb_ℤ (pos 0) until && leb_ℤ until (pos (30 * second))

module _ (parse_duration : String → Option ℤ) where
  pub scan_interval_of : String → ℤ → ℤ
  scan_interval_of interval fallback = elim (parse_duration interval) [
    | none ↦ fallback
    | some d ↦ d
  ]

  pub get_scan_interval_early : SchedulerConfig → ℤ
  unfolding scan_interval_of
  get_scan_interval_early c =
      let early = scan_interval_of c.scan_interval_early (pos (5 * minute)) in
      if not (str_eq c.scan_interval "") then scan_interval_of c.scan_interval early else early

  pub get_scan_interval_late : SchedulerConfig → ℤ
  unfolding scan_interval_of
  get_scan_interval_late c =
      let late = scan_interval_of c.scan_interval_late (pos minute) in
      if not (str_eq c.scan_interval "") then scan_interval_of c.scan_interval late else late

  -- The calls of the intent queue, which is `nil` until it is wired in.
  pub queue_call : Bool → WindowType → Readings → Option QueueCall
  queue_call false w r = none
  queue_call true closed r = some clear_after_settlement
  queue_call true w r = some (tick_queue w (sub_ℕ (next_funding_time r.at_queue) r.at_queue))

  pub scan_interval : SchedulerConfig → WindowType → ℤ
  unfolding get_scan_interval_early get_scan_interval_late
  scan_interval c last_minute = get_scan_interval_late c
  scan_interval c _ = get_scan_interval_early c

  -- `acquire` is the answer of the lock store, `false` also for its error.
  pub scan_step :
      (ℕ → ℤ → Bool) → SchedulerConfig → WindowType → Readings → TickEffects → TickEffects
  unfolding scan_interval truncate
  scan_step acquire c window r e =
      let interval = scan_interval c window in
      let key = truncate r.at_lock interval / 1_000_000 in
      let locked = record e { lock = some (key, interval) } in
      if acquire key interval then record locked { scan = some window } else locked

  unfoldable pub tick : Bool → (ℕ → ℤ → Bool) → SchedulerConfig → Readings → TickEffects
  unfolding queue_call in_freeze scan_step
  tick has_queue acquire c r =
      let window = current_window r.at_window c.window_start_minutes in
      let called : TickEffects = record {
        queue = queue_call has_queue window r;
        lock = none;
        scan = none;
      } in
      elim window [
        | closed ↦ called
        | after ↦ called
        | other ↦ if in_freeze r then called else scan_step acquire c other r called
      ]
