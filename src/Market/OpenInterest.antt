-- ===== src/Market/OpenInterest.antt =====
-- internal/indicator/oi_delta.go and internal/market/oi_cache.go. A missing series reads as empty. The
-- clock's time is an argument.
pub mod Delta
use Prim.Native.String.{String}
use text.Mathlib.Text.{◌==◌ as str_eq}
use binance_futures.Base.{
  ℕ, ◌+◌, Option, none, some, List, [], ◌∷◌, ◌++◌, ltb, if◌then◌else◌, last_of,
}
use binance_futures.Float64.{Float64, nought, hundred}
use binance_futures.Market.Books.{put, forget}

abbrev pub oi_history_max_size : ℕ
oi_history_max_size = 288

pub record OiSnapshot (F : Type 0) : Type 0 where
  pub oi : F
  pub timestamp : ℕ

-- `OICache` with its `OIHistory`.
pub record OiCache (F : Type 0) : Type 0 where
  pub current : String → Option F
  pub snapshots : String → List (OiSnapshot F)

-- `Delta`: its two errors, or the change.
pub data DeltaResult (F : Type 0) : Type 0 where
  no_data insufficient_history : DeltaResult F
  change : F → DeltaResult F

module _ {F : Type 0} where
  abbrev pub new_oi_cache : OiCache F
  new_oi_cache = record { current = λ _. none; snapshots = λ _. [] }

  -- `Add` to one series.
  abbrev pub add_snapshot : F → ℕ → List (OiSnapshot F) → List (OiSnapshot F)
  add_snapshot oi now snaps =
      last_of oi_history_max_size (snaps ++ record { oi = oi; timestamp = now } ∷ [])

  unfoldable pub update_oi : String → F → ℕ → OiCache F → OiCache F
  update_oi symbol oi now c = record {
    current = put symbol oi c.current;
    snapshots = λ t. if str_eq symbol t then add_snapshot oi now (c.snapshots t) else c.snapshots t;
  }

  unfoldable pub purge_oi : String → OiCache F → OiCache F
  purge_oi symbol c = record {
    current = forget symbol c.current;
    snapshots = λ t. if str_eq symbol t then [] else c.snapshots t;
  }

  -- The latest snapshot before the cutoff `now - window`.
  abbrev pub latest_before : ℕ → ℕ → List (OiSnapshot F) → Option (OiSnapshot F)
  latest_before window now [] = none
  latest_before window now (s ∷ snaps) = elim (latest_before window now snaps) [
    | some later ↦ some later
    | none ↦ if ltb (s.timestamp + window) now then some s else none
  ]

  abbrev pub newest : List (OiSnapshot F) → Option (OiSnapshot F)
  newest [] = none
  newest (s ∷ []) = some s
  newest (_ ∷ s ∷ snaps) = newest (s ∷ snaps)

module _ {F : Type 0} ⦃f : Float64 F⦄ where
  open f use {sub, mul, div, eq}

  abbrev pub change_between : F → F → DeltaResult F
  change_between current past =
      if eq past nought
      then DeltaResult.insufficient_history
      else DeltaResult.change (mul (div (sub current past) past) hundred)

  abbrev pub answer : Option (OiSnapshot F) → Option (OiSnapshot F) → DeltaResult F
  answer none past = DeltaResult.no_data
  answer (some current) none = change_between current.oi nought
  answer (some current) (some past) = change_between current.oi past.oi

  -- `Delta` of one series.
  unfoldable pub delta_of : ℕ → ℕ → List (OiSnapshot F) → DeltaResult F
  delta_of window now snaps = answer (newest snaps) (latest_before window now snaps)

  unfoldable pub delta : String → ℕ → ℕ → OiCache F → DeltaResult F
  delta symbol window now c = delta_of window now (c.snapshots symbol)
