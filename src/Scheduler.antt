-- ===== src/Scheduler.antt =====
-- internal/scheduler/window.go: the funding clock. A `time.Time` is the nanoseconds since a UTC
-- midnight (the Unix epoch), a `time.Duration` an integer of nanoseconds.
pub mod Settlement
pub mod Windows
pub mod Tick
mod Tests
use mathlib.Core.Option
use binance_futures.Base.{
  ℕ, zero, suc, ◌+◌, ◌-◌, ◌*◌, ◌/◌, ◌%◌, Bool, true, false, ◌&&◌, ◌||◌, List, [], ◌∷◌, Option, none,
  some, ltb, leb, ◌==◌, if◌then◌else◌,
}
use binance_futures.Base.Int.{ℤ, pos, negsuc, sub_ℕ, ltb_ℤ, leb_ℤ}

abbrev pub second : ℕ
second = 1_000_000_000

abbrev pub minute : ℕ
minute = 60_000_000_000

abbrev pub hour : ℕ
hour = 3_600_000_000_000

abbrev pub day : ℕ
day = 86_400_000_000_000

pub data WindowType : Type 0 where
  frontrun last_minute after closed : WindowType

abbrev pub funding_hours : List ℕ
funding_hours = 0 ∷ 4 ∷ 8 ∷ 12 ∷ 16 ∷ 20 ∷ []

-- `utc.Minute() > 0 || utc.Second() > 0 || utc.Nanosecond() > 0`
abbrev pub past_the_hour : ℕ → Bool
past_the_hour now = ltb 0 (now / minute % 60) || ltb 0 (now / second % 60) || ltb 0 (now % second)

-- The `for` of `NextFundingTime`; what follows it is the last clause.
abbrev pub first_hour : ℕ → List ℕ → ℕ
first_hour now [] = (now / day + 1) * day
first_hour now (h ∷ hs) =
    let current = now / hour % 24 in
    if ltb current h || (current == h && past_the_hour now)
    then now / day * day + h * hour
    else first_hour now hs

unfoldable pub next_funding_time : ℕ → ℕ
next_funding_time now = first_hour now funding_hours

unfoldable pub current_window : ℕ → ℕ → WindowType
current_window now window_start_minutes =
    let until = sub_ℕ (next_funding_time now) now in
    let window_start = pos (window_start_minutes * minute) in
    if leb_ℤ until (pos 0) && ltb_ℤ (negsuc (minute - 1)) until
    then after
    else if ltb_ℤ (pos 0) until && leb_ℤ until (pos (6 * minute))
    then last_minute
    else if ltb_ℤ (pos (6 * minute)) until && leb_ℤ until window_start
    then frontrun
    else closed

-- The `for` of `NextWindowBounds`, on fuel: the settlement and the close of its window.
pub window_loop : ℕ → ℕ → ℕ → Option (ℕ × ℕ)
window_loop zero now settlement = none
window_loop (suc fuel) now settlement =
    let close = settlement + 5 * minute in
    let rest = window_loop fuel now (next_funding_time (settlement + hour)) in
    if ltb close now then rest else some (settlement, close)

-- `(open, close, settlement)`; the open may lie before the epoch, so it is an integer.
unfoldable pub next_window_bounds : ℕ → ℕ → ℕ → Option (ℤ × ℕ × ℕ)
unfolding window_loop
next_window_bounds fuel now window_start_minutes =
    Option.map
      (λ (settlement, close). (sub_ℕ settlement (window_start_minutes * minute), close, settlement))
      (window_loop fuel now (next_funding_time now))
