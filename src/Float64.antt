-- ===== src/Float64.antt =====
-- Go's `float64`: the operations and comparisons that the code uses, over any carrier. The decisions
-- of the program are stated over this interface; `IsOrdered` has the laws of IEEE 754 comparison that
-- some theorems need.
pub mod Fixed
use binance_futures.Base.{ℕ, ◌≡◌, ◌⊎◌, Bool, true, false, not, ◌&&◌}
use binance_futures.Base.Int.{ℤ, pos}

pub record Float64 (F : Type 0) : Type 0 where
  -- The literal `m · 10^-k`.
  pub lit : ℤ → ℕ → F
  pub of_int : ℤ → F
  pub to_int : F → ℤ
  pub add : F → F → F
  pub sub : F → F → F
  pub mul : F → F → F
  pub div : F → F → F
  pub neg : F → F
  pub abs : F → F
  pub round : F → F
  pub ceil : F → F
  -- `math.Min` and `math.Max`.
  pub minimum : F → F → F
  pub maximum : F → F → F
  pub lt : F → F → Bool
  pub le : F → F → Bool
  pub eq : F → F → Bool

module _ {F : Type 0} ⦃f : Float64 F⦄ where
  abbrev pub nought : F
  nought = f.lit (pos 0) 0

  abbrev pub hundred : F
  hundred = f.lit (pos 100) 0

  -- `x` is a number: NaN is the value that is not `<=` itself.
  abbrev pub IsNumber : F → Type 0
  IsNumber x = f.le x x ≡ true

-- Comparison away from NaN.
pub record IsOrdered (F : Type 0) ⦃f : Float64 F⦄ : Type 0 where
  pub le_left : (x y : F) → f.le x y ≡ true → IsNumber x
  pub le_right : (x y : F) → f.le x y ≡ true → IsNumber y
  pub le_trans : (x y z : F) → f.le x y ≡ true → f.le y z ≡ true → f.le x z ≡ true
  pub le_total : (x y : F) → IsNumber x → IsNumber y → (f.le x y ≡ true) ⊎ (f.le y x ≡ true)
  pub lt_iff : (x y : F) → IsNumber x → IsNumber y → f.lt x y ≡ not (f.le y x)
  pub lt_number : (x y : F) → f.lt x y ≡ true → f.le x y ≡ true
