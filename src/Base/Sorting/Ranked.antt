-- ===== src/Base/Sorting/Ranked.antt =====
-- The Go idiom `sort.Slice(xs, less); xs = xs[:min(n, len(xs))]`: the first of a ranking.
use Prim.Native.Nat.{ℕ, zero, suc}
use mathlib.Core.List.{Permᴰ}
use mathlib.Core.Path.{◌≡◌, refl, sym, ap, ◌∙◌, subst}
use mathlib.Core.Bool.{Bool}
use binance_futures.Base.Tests.{leb, if◌then◌else◌}
use mathlib.Core.List.{List, [], ◌∷◌, ◌++◌}
use native.Mathlib.Omega.{arith}
use binance_futures.Base.Lists.{length, take, drop}
use binance_futures.Base.Sorting.{Sorter, IsSort, IsStrictWeak, Ordered}

-- `min(n, len)`.
abbrev pub least : ℕ → ℕ → ℕ
least n m = if leb n m then n else m

module _ {ℓ} {A : Type ℓ} where
  take-drop : (n : ℕ) (xs : List A) → take n xs ++ drop n xs ≡ xs
  take-drop zero xs = refl
  take-drop (suc n) [] = refl
  take-drop (suc n) (x ∷ xs) = ap (◌∷◌ x) (take-drop n xs)

  length-take : (n : ℕ) (xs : List A) → length (take n xs) ≡ least n (length xs)
  length-take zero xs = ground arith
  length-take (suc n) [] = ground arith
  length-take (suc n) (x ∷ xs) = let shorter = length-take n xs in ground (arith, shorter)

  length-perm : {xs ys : List A} → Permᴰ xs ys → length xs ≡ length ys
  length-perm Permᴰ.nil = refl
  length-perm (Permᴰ.cons e d) = ap suc (length-perm d)
  length-perm (Permᴰ.swap e₁ e₂) = refl
  length-perm (Permᴰ.trans d₁ d₂) = length-perm d₁ ∙ length-perm d₂

  -- `top` begins a ranking of `xs` by `less`: it has `n` of them, or all where there are no more.
  pub record Ranked (less : A → A → Bool) (n : ℕ) (xs top : List A) : Type ℓ where
    pub rest : List A
    pub ordered : Ordered less (top ++ rest)
    pub permutes : Permᴰ (top ++ rest) xs
    pub size : length top ≡ least n (length xs)

  pub take-sort-Ranked :
      (s : Sorter A)
      → IsSort s
      → (less : A → A → Bool) → IsStrictWeak less
      → (n : ℕ) (xs : List A) → Ranked less n xs (take n (s.sort less xs))
  take-sort-Ranked s h less weak n xs =
      let sorted = s.sort less xs in
      let parts : take n sorted ++ drop n sorted ≡ sorted = take-drop n sorted in
      let permuted : Permᴰ sorted xs = h.permutes less xs in
      let long : length sorted ≡ length xs = length-perm permuted in
      record {
        rest = drop n sorted;
        ordered = subst (Ordered less) (sym parts) (h.orders less xs weak);
        permutes = subst (λ l. Permᴰ l xs) (sym parts) permuted;
        size = length-take n sorted ∙ ap (least n) long;
      }

  pub Ranked-none : (less : A → A → Bool) (n : ℕ) → Ranked less n [] []
  Ranked-none less n = record { rest = []; ordered = tt; permutes = Permᴰ.nil; size = ground arith }
