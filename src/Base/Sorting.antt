-- ===== src/Base/Sorting.antt =====
-- `sort.Slice`: a parameter of the model, with what Go documents of it. It is not stable.
pub mod Insertion
pub mod Ranked
use mathlib.Core.List.{Permᴰ}
use mathlib.Core.List.Permᴰ
use mathlib.Core.Path.{◌≡◌, refl, sym, subst, ap, ◌∙◌}
use mathlib.Core.Logic.{◌⊎◌, inl, inr}
use mathlib.Core.Bool.{Bool, true, false}
use mathlib.Core.List.{List, [], ◌∷◌}
use native.Mathlib.Omega.{arith}
use Prim.Native.Nat.{ℕ, ◌+◌}
use binance_futures.Base.Tests.{if◌then◌else◌, Bool-cases}
use binance_futures.Base.Lists.{All, All-map, length}

pub record Sorter {ℓ} (A : Type ℓ) : Type ℓ where
  pub sort : (A → A → Bool) → List A → List A

module _ {ℓ} {A : Type ℓ} where
  -- What `sort.Slice` asks of `less`.
  pub record IsStrictWeak (less : A → A → Bool) : Type ℓ where
    pub asym : (a b : A) → less a b ≡ true → less b a ≡ false
    pub trans : (a b c : A) → less a b ≡ true → less b c ≡ true → less a c ≡ true
    pub cotrans : (a b c : A) → less a c ≡ true → (less a b ≡ true) ⊎ (less b c ≡ true)

  -- Nothing stands before something that is less.
  abbrev pub Ordered : (A → A → Bool) → List A → Type 0
  Ordered less [] = Unit
  Ordered less (x ∷ xs) = All (λ y. less y x ≡ false) xs × Ordered less xs

  -- `R` between every two elements.
  abbrev pub Pairs {κ} : (A → A → Type κ) → List A → Type κ
  Pairs R [] = Unit
  Pairs R (x ∷ xs) = All (R x) xs × Pairs R xs

  pub record IsSort (s : Sorter A) : Type ℓ where
    pub permutes : (less : A → A → Bool) (xs : List A) → Permᴰ (s.sort less xs) xs
    pub orders :
        (less : A → A → Bool) (xs : List A) → IsStrictWeak less → Ordered less (s.sort less xs)

  pub All-perm {κ} : (P : A → Type κ) {xs ys : List A} → Permᴰ xs ys → All P ys → All P xs
  All-perm P Permᴰ.nil h = h
  All-perm P (Permᴰ.cons e d) (p, ps) = (subst P (sym e) p, All-perm P d ps)
  All-perm P (Permᴰ.swap e₁ e₂) (p, (q, r)) = (subst P (sym e₁) q, (subst P (sym e₂) p, r))
  All-perm P (Permᴰ.trans d₁ d₂) h = All-perm P d₁ (All-perm P d₂ h)

  module _ {κ} (R : A → A → Type κ) (symmetric : (a b : A) → R a b → R b a) where
    All-symmetric : (a : A) (xs : List A) → All (λ y. R y a) xs → All (R a) xs
    All-symmetric a xs h = All-map (λ y. R y a) (R a) (λ y. symmetric y a) xs h

    pub Pairs-perm : {xs ys : List A} → Permᴰ xs ys → Pairs R ys → Pairs R xs
    Pairs-perm Permᴰ.nil h = h
    Pairs-perm (Permᴰ.cons {a = a} {l₁ = l₁} e d) (p, ps) =
        (subst (λ z. All (R z) l₁) (sym e) (All-perm (R _) d p), Pairs-perm d ps)
    Pairs-perm (Permᴰ.swap {a = a} {b = b} {l = l} e₁ e₂) ((p, ps), (qs, r)) = (
      (
        subst (λ z. R z b) (sym e₁) (subst (R _) (sym e₂) (symmetric _ _ p)),
        subst (λ z. All (R z) l) (sym e₁) qs,
      ),
      (subst (λ z. All (R z) l) (sym e₂) ps, r),
    )
    Pairs-perm (Permᴰ.trans d₁ d₂) h = Pairs-perm d₁ (Pairs-perm d₂ h)

  -- A sum over the elements does not see their order.
  abbrev pub total : (A → ℕ) → List A → ℕ
  total w [] = 0
  total w (x ∷ xs) = w x + total w xs

  pub total-perm : (w : A → ℕ) {xs ys : List A} → Permᴰ xs ys → total w xs ≡ total w ys
  total-perm w Permᴰ.nil = refl
  total-perm w (Permᴰ.cons e d) = omega (arith, ap w e, total-perm w d)
  total-perm w (Permᴰ.swap e₁ e₂) = omega (arith, ap w e₁, ap w e₂)
  total-perm w (Permᴰ.trans d₁ d₂) = total-perm w d₁ ∙ total-perm w d₂
