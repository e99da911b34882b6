-- ===== src/App/Restricted.antt =====
-- `isRestrictedDay` of internal/app/scan.go. A day is counted from 1970-01-01, a Thursday; the calendar
-- is that of Go's `time` package.
use binance_futures.Base.{
  ℕ, ◌+◌, ◌-◌, ◌*◌, ◌/◌, ◌%◌, ◌<◌, ◌≤◌, ◌≡◌, ◌≢◌, ◌↔◌, ◌⊎◌, inl, inr, Bool, true, false, not, ◌&&◌,
  ◌||◌, arith, ltb, leb, ◌==◌, if◌then◌else◌, refl, Bool-cases,
}
use binance_futures.Scheduler.{day, hour}

-- `time.Weekday`: 0 is Sunday.
abbrev pub weekday : ℕ → ℕ
weekday d = (d + 4) % 7

pub record Date : Type 0 where
  pub year : ℕ
  pub month : ℕ
  pub day_of_month : ℕ

pub is_leap : ℕ → Bool
is_leap y = (y % 4 == 0) && (not (y % 100 == 0) || (y % 400 == 0))

-- The years of the computation begin in March.
unfoldable pub date_of : ℕ → Date
date_of d =
    let z = d + 719_468 in
    let doe = z % 146_097 in
    let yoe = (doe - doe / 1460 + doe / 36_524 - doe / 146_096) / 365 in
    let doy = doe - (365 * yoe + yoe / 4 - yoe / 100) in
    let mp = (5 * doy + 2) / 153 in
    record {
      year = yoe + z / 146_097 * 400 + (if ltb mp 10 then 0 else 1);
      month = if ltb mp 10 then mp + 3 else mp - 9;
      day_of_month = doy - (153 * mp + 2) / 5 + 1;
    }

-- `time.Date(year, month+1, 0, …).Day()`
unfoldable pub last_day : Date → ℕ
unfolding is_leap
last_day t =
    if t.month == 2
    then (if is_leap t.year then 29 else 28)
    else if (t.month == 4) || (t.month == 6) || (t.month == 9) || (t.month == 11)
    then 30
    else 31

-- `mondayMidnight`
abbrev pub monday_midnight : ℕ → ℕ
monday_midnight now = if weekday (now / day) == 1 then now / day * day else (now / day + 1) * day

abbrev pub around_monday : ℕ → Bool
around_monday now =
    ((weekday (now / day) == 1) || (weekday (now / day) == 0))
    && (ltb (monday_midnight now) (now + hour) && ltb now (monday_midnight now + hour))

abbrev pub is_weekend : ℕ → Bool
is_weekend w = (w == 6) || (w == 0)

unfoldable pub is_restricted_day : ℕ → Bool
is_restricted_day now =
    let w = weekday (now / day) in
    let t = date_of (now / day) in
    if around_monday now
    then true
    else if leb t.day_of_month 3 && not (w == 6)
    then true
    else if not (is_weekend w)
    then leb (last_day t - 4) t.day_of_month
    else false

-- `now` is less than an hour from the start of a Monday.
abbrev pub NearMonday : ℕ → Type 0
NearMonday now = (d : ℕ) × (weekday d ≡ 1) × (d * day < now + hour) × (now < d * day + hour)

abbrev pub EarlyInMonth : ℕ → Type 0
EarlyInMonth now = ((date_of (now / day)).day_of_month ≤ 3) × (weekday (now / day) ≢ 6)

abbrev pub LateInMonth : ℕ → Type 0
LateInMonth now =
    let t = date_of (now / day) in
    (last_day t ≤ t.day_of_month + 4) × (weekday (now / day) ≢ 6) × (weekday (now / day) ≢ 0)

around_monday-Near : (now : ℕ) → around_monday now ≡ true → NearMonday now
around_monday-Near now h = elim (Bool-cases (weekday (now / day) == 1)) [
  | inl y ↦ (now / day, ground arith, ground arith, ground arith)
  | inr n ↦ (now / day + 1, ground arith, ground arith, ground arith)
]

Near-around_monday : (now : ℕ) → NearMonday now → around_monday now ≡ true
Near-around_monday now (d, w, lo, hi) = ground arith

restricted_elsewhere :
    (now : ℕ)
    → around_monday now ≡ false
    → (is_restricted_day now ≡ true) ↔ (EarlyInMonth now ⊎ LateInMonth now)
unfolding is_restricted_day
restricted_elsewhere now n = rw n (
    (
      λ h.
          elim (Bool-cases
            (leb (date_of (now / day)).day_of_month 3 && not (weekday (now / day) == 6))) [
              | inl y ↦ inl (ground arith)
              | inr e ↦ inr (ground arith)
            ],
      λ h. ground arith,
    ))

-- A day is restricted exactly if the time is less than an hour from the start of a Monday, or the
-- day is one of the first three of its month and no Saturday, or one of the last five and no
-- Saturday or Sunday.
pub is_restricted_day_iff :
    (now : ℕ)
    → (is_restricted_day now ≡ true) ↔ (NearMonday now ⊎ (EarlyInMonth now ⊎ LateInMonth now))
unfolding is_restricted_day
is_restricted_day_iff now = elim (Bool-cases (around_monday now)) [
  | inl y ↦ rw y ((λ h. inl (around_monday-Near now y), λ h. refl))
  | inr n ↦ (
    λ h. inr ((restricted_elsewhere now n).0 h),
    λ h. elim h [
      | inl near ↦ absurd (cc (n, Near-around_monday now near))
      | inr rest ↦ (restricted_elsewhere now n).1 rest
    ],
  )
]
