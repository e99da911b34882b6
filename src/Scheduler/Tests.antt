-- ===== src/Scheduler/Tests.antt =====
-- Examples for the funding clock and the scheduler: half past eight, when the settlement of eight is
-- the next one still, and a minute before twelve.
use Prim.Native.String.{String}
use binance_futures.Base.{ℕ, ◌≡◌, ◌↔◌, ◌≤◌, ◌<◌, ◌*◌, ◌+◌, ◌%◌, ◌-◌, Bool, true, Option, some, none}
use binance_futures.Base.Int.{ℤ, pos}
use binance_futures.Scheduler.{
  WindowType, hour, minute, next_funding_time, current_window, next_window_bounds,
}
use binance_futures.Scheduler.Settlement.{slot, next_funding_time_lem}
use binance_futures.Scheduler.Windows.{
  window_at, current_window-window_at, bound_settlement, next_window_bounds_total,
}
use binance_futures.Scheduler.Tick.{SchedulerConfig, tick}
use binance_futures.Scheduler.Tick.Scans.{at, OpenAt, tick_scans_iff}

abbrev half_past_eight : ℕ
half_past_eight = 8 * hour + 30 * minute

abbrev near_noon : ℕ
near_noon = 12 * hour - minute

abbrev settings : SchedulerConfig
settings = record {
  scan_interval_early = "5m";
  scan_interval_late = "1m";
  scan_interval = "";
  window_start_minutes = 60;
}

abbrev no_duration : String → Option ℤ
no_duration _ = none

abbrev free : ℕ → ℤ → Bool
free _ _ = true

next_funding_time_example : next_funding_time half_past_eight ≡ 8 * hour
next_funding_time_example = next_funding_time_lem half_past_eight

current_window_example : current_window near_noon 60 ≡ WindowType.last_minute
unfolding window_at
current_window_example = current_window-window_at near_noon 60

next_window_bounds_example :
    let s = bound_settlement half_past_eight in
    (next_window_bounds 2 half_past_eight 60
      ≡ some (pos (11 * hour), 12 * hour + 5 * minute, 12 * hour))
    × (s % slot ≡ 0)
    × (half_past_eight ≤ s + 5 * minute)
    × ((k : ℕ)
        → 0 < half_past_eight % slot
        → half_past_eight ≤ k * slot + 5 * minute
        → s ≤ k * slot)
next_window_bounds_example = next_window_bounds_total half_past_eight 60 0

tick_scans_example :
    ((tick no_duration true free settings (at near_noon)).scan ≡ some WindowType.last_minute)
    ↔ (OpenAt no_duration free settings (near_noon % slot) WindowType.last_minute × (true ≡ true))
tick_scans_example = tick_scans_iff no_duration free settings near_noon WindowType.last_minute
