-- ===== src/Scheduler/Tick/Scans.antt =====
-- When a tick of the scheduler scans and when it clears the intent queue, by the time of day.
use Prim.Native.String.{String}
use binance_futures.Base.{
  ℕ, ◌+◌, ◌*◌, ◌%◌, ◌/◌, ◌≤◌, ◌<◌, ◌≡◌, ◌↔◌, ◌⊎◌, Bool, true, Option, some, arith,
}
use binance_futures.Base.Int.{ℤ}
use binance_futures.Scheduler.{
  WindowType, frontrun, last_minute, after, closed, minute, hour, second,
}
use binance_futures.Scheduler.Settlement.{slot, next_funding_time_lem}
use binance_futures.Scheduler.Windows.{window_at, current_window-window_at}
use binance_futures.Scheduler.Tick.{
  SchedulerConfig, Readings, clear_after_settlement, tick, truncate, scan_interval,
}

-- All readings of the clock at one instant.
abbrev pub at : ℕ → Readings
at now = record { at_window = now; at_queue = now; at_next = now; at_until = now; at_lock = now }

module _ (parse_duration : String → Option ℤ) (acquire : ℕ → ℤ → Bool) (c : SchedulerConfig) where
  -- The part of a slot in which a window is open for scans.
  abbrev pub OpenAt : ℕ → WindowType → Type 0
  OpenAt since frontrun =
      (since + 6 * minute < slot)
      × (slot ≤ since + c.window_start_minutes * minute)
      × ((since ≡ 0) ⊎ (hour ≤ since))
  OpenAt since last_minute = (slot ≤ since + 6 * minute) × (since + 30 * second < slot)
  OpenAt since _ = ⊥

  -- With one reading of the clock, a tick scans for a window exactly if the time lies in that
  -- window's part of the slot, which for LAST_MINUTE ends 30 seconds before the settlement, and
  -- the lock for the interval is acquired. The comments of the trigger say that scans stop three
  -- minutes before the settlement.
  pub tick_scans_iff :
      (now : ℕ) (w : WindowType)
      → let interval = scan_interval parse_duration c w in
        ((tick parse_duration true acquire c (at now)).scan ≡ some w)
        ↔ (OpenAt (now % slot) w × (acquire (truncate now interval / 1_000_000) interval ≡ true))
  unfolding tick window_at
  tick_scans_iff now frontrun =
      ground (arith, current_window-window_at now c.window_start_minutes, next_funding_time_lem now)
  tick_scans_iff now last_minute =
      ground (arith, current_window-window_at now c.window_start_minutes, next_funding_time_lem now)
  tick_scans_iff now after =
      ground (arith, current_window-window_at now c.window_start_minutes, next_funding_time_lem now)
  tick_scans_iff now closed =
      ground (arith, current_window-window_at now c.window_start_minutes, next_funding_time_lem now)

  -- With one reading of the clock, a tick clears the intent queue exactly outside all windows: from
  -- one minute after a settlement until the earlier of the two windows before the next one opens,
  -- and at the very instant of the settlement too.
  pub tick_clears_iff :
      (now : ℕ)
      → let since = now % slot in
        ((tick parse_duration true acquire c (at now)).queue ≡ some clear_after_settlement) ↔ (
          (since + 6 * minute < slot)
          × (((minute ≤ since) × (since < hour))
              ⊎ (((since ≡ 0) ⊎ (hour ≤ since))
                  × (since + c.window_start_minutes * minute < slot))))
  unfolding tick window_at
  tick_clears_iff now = ground (arith, current_window-window_at now c.window_start_minutes)
