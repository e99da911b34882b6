-- ===== src/Scoring/Thresholds.antt =====
-- internal/scoring/scorer.go, `evalThreshold` and `evalInterpolated`.
use Prim.Native.String.{String}
use text.Mathlib.Text.{◌==◌ as str_eq}
use binance_futures.Base.{◌+◌, ◌≡◌, ◌⊎◌, Bool, true, false, none, some, List, ◌∷◌, ◌++◌, All, ◌&&◌}
use binance_futures.Base.Int.{ℤ, pos_part, neg_part}
use binance_futures.Float64.{Float64, nought}
use binance_futures.Domain.{ScoringThreshold}
use binance_futures.Scoring.{previous_order}

-- The first integer is the second less one.
abbrev pub Precedes : ℤ → ℤ → Type 0
Precedes a b = pos_part a + neg_part b + 1 ≡ pos_part b + neg_part a

module _ {F : Type 0} ⦃f : Float64 F⦄ where
  open f use {add, sub, mul, div, lt, le, eq}

  -- The tier is of the category and has the value in `[min_value, max_value)`, where a missing bound
  -- allows all.
  pub record InRange (category : String) (value : F) (t : ScoringThreshold F) : Type 0 where
    pub of_category : t.category ≡ category
    pub from_min : (low : F) → t.min_value ≡ some low → lt value low ≡ false
    pub below_max : (high : F) → t.max_value ≡ some high → le high value ≡ false

  -- The tier is of the category and its order is the given one less one.
  pub record IsBefore (category : String) (order : ℤ) (u : ScoringThreshold F) : Type 0 where
    pub of_category : u.category ≡ category
    pub precedes : Precedes u.tier_order order

  -- `t` is the first tier of `ts` for which `P` holds.
  pub record IsFirst (P : ScoringThreshold F → Type 0) (t : ScoringThreshold F)
      (ts : List (ScoringThreshold F)) : Type 0 where
    pub before : List (ScoringThreshold F)
    pub after : List (ScoringThreshold F)
    pub split : ts ≡ before ++ t ∷ after
    pub skipped : All (λ u. ¬ P u) before
    pub meets : P t

  abbrev is_before : String → ℤ → ScoringThreshold F → Bool
  is_before category order u = str_eq u.category category && previous_order u.tier_order order

  -- `prev` is the multiplier of the first tier of the category before `order`, or 0 without one.
  pub IsBase : List (ScoringThreshold F) → String → ℤ → F → Type 0
  IsBase ts category order prev =
      (All (λ u. ¬ IsBefore category order u) ts × (prev ≡ nought))
      ⊎ ((u : ScoringThreshold F) × IsFirst (IsBefore category order) u ts × (prev ≡ u.multiplier))

  -- What the interpolation gives for the tier `t`: between two different bounds the ramp from the
  -- multiplier of the tier before to its own, and its multiplier where it does not interpolate, a bound
  -- is missing or the bounds are equal.
  pub record Interpolates (ts : List (ScoringThreshold F)) (category : String) (value : F)
      (t : ScoringThreshold F) (v : F) : Type 0 where
    pub flat : t.interpolate ≡ false → v ≡ t.multiplier
    pub no_min : t.min_value ≡ none → v ≡ t.multiplier
    pub no_max : t.max_value ≡ none → v ≡ t.multiplier
    pub point :
        (low high : F)
        → t.min_value ≡ some low
        → t.max_value ≡ some high
        → eq high low ≡ true
        → v ≡ t.multiplier
    pub ramp :
        (low high : F)
        → t.interpolate ≡ true
        → t.min_value ≡ some low
        → t.max_value ≡ some high
        → eq high low ≡ false
        → (prev : F) × IsBase ts category t.tier_order prev
          × (v ≡ add prev (mul (div (sub value low) (sub high low)) (sub t.multiplier prev)))
