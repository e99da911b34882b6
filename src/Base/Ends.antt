-- ===== src/Base/Ends.antt =====
-- The Go idiom `xs[len(xs)-n:]`: the last elements of a list.
use Prim.Native.Nat.{ℕ, zero, suc, ◌+◌, ◌-◌, ◌≤◌, ◌<◌}
use mathlib.Core.Path.{◌≡◌, refl, sym, ap, ◌∙◌}
use mathlib.Core.Logic.{inl, inr}
use mathlib.Core.List.{List, [], ◌∷◌}
use native.Mathlib.Omega.{arith}
use binance_futures.Base.Tests.{Bool-cases, ltb, ltb→lt, if◌then◌else◌}
use binance_futures.Base.Lists.{length, drop}

module _ {ℓ} {A : Type ℓ} where
  -- The last `n` elements.
  abbrev pub last_of : ℕ → List (A) → List (A)
  last_of n cs = if ltb n (length cs) then drop (length cs - n) cs else cs

  pub length-drop : (k : ℕ) (cs : List (A)) → length (drop k cs) ≡ length cs - k
  length-drop zero cs = omega arith
  length-drop (suc k) [] = omega arith
  length-drop (suc k) (c ∷ cs) = omega (arith, length-drop k cs)

  drop-drop : (k m n : ℕ) (cs : List (A)) → n ≡ k + m → drop m (drop k cs) ≡ drop n cs
  drop-drop zero m n cs e = let same : n ≡ m = omega (arith, e) in rw same refl
  drop-drop (suc k) zero zero [] e = refl
  drop-drop (suc k) (suc m) zero [] e = refl
  drop-drop (suc k) zero (suc n) [] e = refl
  drop-drop (suc k) (suc m) (suc n) [] e = refl
  drop-drop (suc k) m zero (c ∷ cs) e = absurd (omega (arith, e))
  drop-drop (suc k) m (suc n) (c ∷ cs) e = drop-drop k m n cs (omega (arith, e))

  pub last_of-drop : (n : ℕ) (cs : List (A)) → last_of n cs ≡ drop (length cs - n) cs
  last_of-drop n cs = elim (Bool-cases (ltb n (length cs))) [
    | inl e ↦ rw e refl
    | inr e ↦ let fits : length cs - n ≡ 0 = ground arith in rw (e, fits) refl
  ]

  pub last_of-past :
      (n k : ℕ) (cs : List (A)) → k + n ≤ length cs → last_of n (drop k cs) ≡ last_of n cs
  last_of-past n k cs h =
      let shorter : length (drop k cs) ≡ length cs - k = length-drop k cs in
      last_of-drop n (drop k cs)
      ∙ drop-drop k (length (drop k cs) - n) (length cs - n) cs (omega (arith, h, shorter))
      ∙ sym (last_of-drop n cs)

  pub last_of-short : (n : ℕ) (cs : List (A)) → length cs ≤ n → last_of n cs ≡ cs
  last_of-short n cs h = ground arith

  pub length-last_of : (n : ℕ) (cs : List (A)) → length (last_of n cs) ≤ n
  length-last_of n cs = omega (arith, ap length (last_of-drop n cs), length-drop (length cs - n) cs)

  pub last_of-last_of : (m n : ℕ) (cs : List (A)) → m ≤ n → last_of m (last_of n cs) ≡ last_of m cs
  last_of-last_of m n cs h = elim (Bool-cases (ltb n (length cs))) [
    | inl e ↦
        let longer : n < length cs = ltb→lt n (length cs) e in
        ap (last_of m) (last_of-drop n cs) ∙ last_of-past m (length cs - n) cs (omega arith)
    | inr e ↦ ap (last_of m) (last_of-short n cs (ground arith))
  ]
