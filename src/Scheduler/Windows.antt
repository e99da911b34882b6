-- ===== src/Scheduler/Windows.antt =====
-- What `CurrentWindow` and `NextWindowBounds` return, read off the place of a time in its slot.
use binance_futures.Base.{
  ℕ, suc, ◌+◌, ◌-◌, ◌*◌, ◌/◌, ◌%◌, ◌≤◌, ◌<◌, ◌≡◌, ◌&&◌, some, false, inl, inr, Bool-cases, ltb, leb,
  if◌then◌else◌, arith,
}
use binance_futures.Base.Int.{pos, negsuc, ltb_ℤ, leb_ℤ, sub_ℕ}
use binance_futures.Scheduler.{
  WindowType, frontrun, last_minute, after, closed, minute, hour, next_funding_time, current_window,
  window_loop, next_window_bounds,
}
use binance_futures.Scheduler.Settlement.{slot, just_settled, next_funding_time_lem}

-- The four windows of a slot, by the time since the settlement that opened it.
unfoldable pub window_at : ℕ → ℕ → WindowType
window_at since start =
    if ltb 0 since && ltb since minute
    then after
    else if ltb since hour && ltb 0 since
    then closed
    else if leb (slot - 6 * minute) since
    then last_minute
    else if leb (slot - start * minute) since
    then frontrun
    else closed

-- The `switch`, with the settlement put in.
classify : ℕ → ℕ → ℕ → WindowType
classify settlement now start =
    let until = sub_ℕ settlement now in
    if leb_ℤ until (pos 0) && ltb_ℤ (negsuc (minute - 1)) until
    then after
    else if ltb_ℤ (pos 0) until && leb_ℤ until (pos (6 * minute))
    then last_minute
    else if ltb_ℤ (pos (6 * minute)) until && leb_ℤ until (pos (start * minute))
    then frontrun
    else closed

classify-past :
    (q r start : ℕ)
    → 0 < r
    → r < hour
    → classify (q * slot) (q * slot + r) start ≡ window_at r start
unfolding classify window_at
classify-past q r start p h = ground arith

classify-next :
    (q r start : ℕ)
    → r < slot
    → (ltb 0 r && ltb r hour) ≡ false
    → classify ((q + 1) * slot) (q * slot + r) start ≡ window_at r start
unfolding classify window_at
classify-next q r start h j = ground arith

-- A time is its slot and its place in it.
parts : (now : ℕ) → now / slot * slot + now % slot ≡ now
parts now = omega arith

classify-window_at :
    (now start : ℕ) → classify (next_funding_time now) now start ≡ window_at (now % slot) start
classify-window_at now start = elim (Bool-cases (just_settled now)) [
  | inl e ↦
      rw (next_funding_time_lem, e)
        (rw (parts now) at
          (classify-past (now / slot) (now % slot) start (ground arith) (ground arith)))
  | inr e ↦
      rw (next_funding_time_lem, e)
        (rw (parts now) at (classify-next (now / slot) (now % slot) start (omega arith) e))
]

-- The current window depends only on the time since the last multiple of four hours, by the intervals
-- of `window_at`. LAST_MINUTE begins six minutes before the settlement, as in the code, not the five of
-- the documents.
pub current_window-window_at :
    (now start : ℕ) → current_window now start ≡ window_at (now % slot) start
unfolding current_window classify
current_window-window_at now start = classify-window_at now start

-- The settlement that `NextWindowBounds` settles on.
abbrev pub bound_settlement : ℕ → ℕ
bound_settlement now =
    if just_settled now && ltb (5 * minute) (now % slot)
    then (now / slot + 1) * slot
    else next_funding_time now

window_loop_lem :
    (now fuel : ℕ)
    → let s = bound_settlement now in
      window_loop (suc (suc fuel)) now (next_funding_time now) ≡ some (s, s + 5 * minute)
unfolding window_loop
window_loop_lem now fuel =
    ground (arith, next_funding_time_lem now, next_funding_time_lem (next_funding_time now + hour))

-- The `for` of `NextWindowBounds` makes at most one round: with fuel for two tests it always
-- returns. The settlement is a multiple of four hours; the window closes five minutes after it and
-- not before `now`, and opens `window_start_minutes` before it. Unless `now` is itself a
-- settlement, no earlier settlement's window closes at or after `now`.
pub next_window_bounds_total :
    (now start fuel : ℕ)
    → let s = bound_settlement now in
      (next_window_bounds (suc (suc fuel)) now start
        ≡ some (sub_ℕ s (start * minute), s + 5 * minute, s))
      × (s % slot ≡ 0)
      × (now ≤ s + 5 * minute)
      × ((k : ℕ) → 0 < now % slot → now ≤ k * slot + 5 * minute → s ≤ k * slot)
unfolding next_window_bounds
next_window_bounds_total now start fuel = (
  rw (window_loop_lem now fuel),
  ground (arith, next_funding_time_lem now),
  ground (arith, next_funding_time_lem now),
  λ k p q. ground (arith, next_funding_time_lem now),
)
