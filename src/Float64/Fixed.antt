-- ===== src/Float64/Fixed.antt =====
-- Decimal fixed point with eight places: a carrier on which the definitions run and the laws hold.
use Prim.Native.Nat.{◌^◌}
use binance_futures.Base.{
  arith, ℕ, suc, ◌+◌, ◌-◌, ◌*◌, ◌/◌, Bool, true, false, ◌&&◌, ◌==◌, if◌then◌else◌,
}
use binance_futures.Base.Int.{ℤ, pos, negsuc, pos_part, neg_part, sub_ℕ, ltb_ℤ, leb_ℤ}
use binance_futures.Float64.{Float64, IsOrdered}

abbrev pub scale : ℕ
scale = 100_000_000

abbrev magnitude : ℤ → ℕ
magnitude (pos n) = n
magnitude (negsuc n) = suc n

abbrev is_negative : ℤ → Bool
is_negative (pos _) = false
is_negative (negsuc _) = true

abbrev signed : Bool → ℕ → ℤ
signed true n = sub_ℕ 0 n
signed false n = pos n

abbrev opposite : ℤ → ℤ
opposite a = sub_ℕ (neg_part a) (pos_part a)

-- The sign of a product or quotient.
abbrev signs_differ : ℤ → ℤ → Bool
signs_differ (pos _) b = is_negative b
signs_differ (negsuc _) (pos _) = true
signs_differ (negsuc _) (negsuc _) = false

abbrev equal : ℤ → ℤ → Bool
equal a b = pos_part a == pos_part b && neg_part a == neg_part b

instance abbrev pub fixed : Float64 ℤ
fixed = record {
  lit = λ m k. signed (is_negative m) (magnitude m * scale / 10 ^ k);
  of_int = λ m. signed (is_negative m) (magnitude m * scale);
  to_int = λ a. signed (is_negative a) (magnitude a / scale);
  add = λ a b. sub_ℕ (pos_part a + pos_part b) (neg_part a + neg_part b);
  sub = λ a b. sub_ℕ (pos_part a + neg_part b) (neg_part a + pos_part b);
  mul = λ a b. signed (signs_differ a b) (magnitude a * magnitude b / scale);
  div = λ a b. signed (signs_differ a b) (magnitude a * scale / magnitude b);
  neg = opposite;
  abs = λ a. pos (magnitude a);
  round = λ a. signed (is_negative a) ((magnitude a + scale / 2) / scale * scale);
  ceil = λ a. elim a [
    | pos n ↦ pos ((n + scale - 1) / scale * scale)
    | negsuc n ↦ sub_ℕ 0 (suc n / scale * scale)
  ];
  minimum = λ a b. if ltb_ℤ b a then b else a;
  maximum = λ a b. if ltb_ℤ a b then b else a;
  lt = ltb_ℤ;
  le = leb_ℤ;
  eq = equal;
}

instance pub fixed-IsOrdered : IsOrdered ℤ
fixed-IsOrdered = record {
  le_left = λ x y h. ground arith;
  le_right = λ x y h. ground arith;
  le_trans = λ x y z h k. ground arith;
  le_total = λ x y h k. ground arith;
  lt_iff = λ x y h k. ground arith;
  lt_number = λ x y h. ground arith;
}
