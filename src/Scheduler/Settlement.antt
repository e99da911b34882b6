-- ===== src/Scheduler/Settlement.antt =====
-- Where the settlement that `NextFundingTime` returns lies.
use binance_futures.Base.{
  ℕ, ◌+◌, ◌*◌, ◌/◌, ◌%◌, ◌<◌, ◌≡◌, Bool, ◌&&◌, ◌||◌, List, [], ◌∷◌, ltb, ◌==◌, if◌then◌else◌, arith,
}
use binance_futures.Scheduler.{
  day, hour, next_funding_time, past_the_hour, first_hour, funding_hours,
}

abbrev pub slot : ℕ
slot = 4 * hour

-- Strictly inside the first hour after a settlement.
abbrev pub just_settled : ℕ → Bool
just_settled now = ltb 0 (now % slot) && ltb (now % slot) hour

past_the_hour_lem : (now : ℕ) → past_the_hour now ≡ ltb 0 (now % hour)
past_the_hour_lem now = ground arith

-- The loop on the parts of the time: the day, the hour, and whether the hour has begun.
pick : ℕ → ℕ → Bool → List ℕ → ℕ
pick d h late [] = (d + 1) * day
pick d h late (k ∷ ks) =
    if ltb h k || (h == k && late) then d * day + k * hour else pick d h late ks

first_hour-pick :
    (now : ℕ) (ks : List ℕ)
    → first_hour now ks ≡ pick (now / day) (now / hour % 24) (past_the_hour now) ks
unfolding pick
first_hour-pick now [] = ground arith
first_hour-pick now (k ∷ ks) = ground (arith, first_hour-pick now ks)

pick_lem :
    (d h : ℕ) (late : Bool)
    → h < 24
    → pick d h late funding_hours
      ≡ (if h % 4 == 0 && late then d * day + h * hour else d * day + (h / 4 + 1) * slot)
unfolding pick
pick_lem d h late p = ground arith

-- The returned settlement is the first multiple of four hours after `now`, except strictly inside the
-- first hour after a settlement, when it is that past settlement.
pub next_funding_time_lem :
    (now : ℕ)
    → next_funding_time now
      ≡ (if just_settled now then now / slot * slot else (now / slot + 1) * slot)
unfolding next_funding_time
next_funding_time_lem now =
    rw
      (
        first_hour-pick,
        pick_lem (now / day) (now / hour % 24) (past_the_hour now) (omega arith),
        past_the_hour_lem,
      )
      (ground arith)
