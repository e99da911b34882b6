-- ===== src/Settings/Durations.antt =====
-- The readers of durations of internal/config/config.go, over `time.ParseDuration`, of which none is an
-- error. Those of the scheduler's two intervals are in Scheduler/Tick.
use Prim.Native.String.{String, len, slice}
use text.Mathlib.Text.{◌==◌ as str_eq}
use binance_futures.Base.{suc, ◌-◌, ◌*◌, not, ◌&&◌, Option, none, some, ltb, if◌then◌else◌}
use binance_futures.Base.Int.{ℤ, pos, negsuc, sub_ℕ}
use binance_futures.Scheduler.{minute, second, day}
use binance_futures.Scheduler.Tick.{SchedulerConfig, scan_interval_of}
use binance_futures.Settings.{MemoryConfig, WebSocketConfig}

abbrev pub days : ℤ → ℤ
days (pos n) = pos (n * day)
days (negsuc n) = sub_ℕ 0 (suc n * day)

module _ (parse_duration : String → Option ℤ) where
  pub get_stale_timeout : WebSocketConfig → ℤ
  get_stale_timeout c = scan_interval_of parse_duration c.stale_timeout (pos (30 * second))

  pub get_ping_interval : WebSocketConfig → ℤ
  get_ping_interval c = scan_interval_of parse_duration c.ping_interval (pos (2 * minute))

  pub get_reconnect_base_backoff : WebSocketConfig → ℤ
  get_reconnect_base_backoff c =
      scan_interval_of parse_duration c.reconnect_base_backoff (pos second)

  pub get_reconnect_max_backoff : WebSocketConfig → ℤ
  get_reconnect_max_backoff c =
      scan_interval_of parse_duration c.reconnect_max_backoff (pos (30 * second))

  pub get_scan_interval : SchedulerConfig → ℤ
  get_scan_interval c =
      if not (str_eq c.scan_interval "")
      then scan_interval_of parse_duration c.scan_interval (pos minute)
      else pos minute

  -- `scan_days` is `fmt.Sscanf` of a text with "%d".
  module _ (scan_days : String → Option ℤ) where
    pub days_of : String → Option ℤ
    days_of s =
        if ltb 1 (len s) && str_eq (slice s (len s - 1) (len s)) "d"
        then scan_days (slice s 0 (len s - 1))
        else none

    pub get_max_memory_age : {F : Type 0} → MemoryConfig F → ℤ
    get_max_memory_age c = elim (days_of c.max_memory_age) [
      | some n ↦ days n
      | none ↦ scan_interval_of parse_duration c.max_memory_age (pos (90 * day))
    ]
