-- ===== src/Base/Sorting/Insertion.antt =====
-- Insertion sort: it meets what Go documents of `sort.Slice`.
use mathlib.Core.List.{Permᴰ}
use mathlib.Core.List.Permᴰ
use mathlib.Core.Path.{◌≡◌, refl}
use mathlib.Core.Logic.{inl, inr}
use mathlib.Core.Bool.{Bool, true, false}
use mathlib.Core.List.{List, [], ◌∷◌}
use native.Mathlib.Omega.{arith}
use binance_futures.Base.Tests.{if◌then◌else◌, Bool-cases}
use binance_futures.Base.Lists.{All-map}
use binance_futures.Base.Sorting.{Sorter, IsSort, IsStrictWeak, Ordered, All-perm}

module _ {ℓ} {A : Type ℓ} (less : A → A → Bool) where
  abbrev pub insert : A → List A → List A
  insert x [] = x ∷ []
  insert x (y ∷ ys) = let rest = insert x ys in if less x y then x ∷ y ∷ ys else y ∷ rest

  abbrev pub insertion_sort : List A → List A
  insertion_sort [] = []
  insertion_sort (x ∷ xs) = insert x (insertion_sort xs)

  insert-perm : (x : A) (ys : List A) → Permᴰ (insert x ys) (x ∷ ys)
  insert-perm x [] = Permᴰ.refl (x ∷ [])
  insert-perm x (y ∷ ys) = elim (Bool-cases (less x y)) [
    | inl e ↦ rw e (Permᴰ.refl (x ∷ y ∷ ys))
    | inr e ↦ rw e (Permᴰ.trans (Permᴰ.cons refl (insert-perm x ys)) (Permᴰ.swap refl refl))
  ]

  insertion_sort-perm : (xs : List A) → Permᴰ (insertion_sort xs) xs
  insertion_sort-perm [] = Permᴰ.nil
  insertion_sort-perm (x ∷ xs) =
      Permᴰ.trans (insert-perm x (insertion_sort xs)) (Permᴰ.cons refl (insertion_sort-perm xs))

  module _ (w : IsStrictWeak less) where
    open w use {asym, trans}

    -- What is not less than `y` is not less than an `x` below `y`.
    not_below : (x y z : A) → less x y ≡ true → less z y ≡ false → less z x ≡ false
    not_below x y z p q = elim (Bool-cases (less z x)) [
      | inl e ↦ ground (arith, trans z x y e p)
      | inr e ↦ e
    ]

    insert-Ordered : (x : A) (ys : List A) → Ordered less ys → Ordered less (insert x ys)
    insert-Ordered x [] h = (tt, tt)
    insert-Ordered x (y ∷ ys) (p, ps) = elim (Bool-cases (less x y)) [
      | inl e ↦ rw e (
        (
          asym x y e,
          All-map (λ z. less z y ≡ false) (λ z. less z x ≡ false) (λ z. not_below x y z e) ys p,
        ),
        (p, ps),
      )
      | inr e ↦
          rw e (All-perm (λ z. less z y ≡ false) (insert-perm x ys) (e, p), insert-Ordered x ys ps)
    ]

    insertion_sort-Ordered : (xs : List A) → Ordered less (insertion_sort xs)
    insertion_sort-Ordered [] = tt
    insertion_sort-Ordered (x ∷ xs) =
        insert-Ordered x (insertion_sort xs) (insertion_sort-Ordered xs)

abbrev pub insertion {ℓ} : {A : Type ℓ} → Sorter A
insertion = record { sort = insertion_sort }

pub insertion-IsSort {ℓ} : {A : Type ℓ} → IsSort (insertion {A = A})
insertion-IsSort = record {
  permutes = insertion_sort-perm;
  orders = λ less xs w. insertion_sort-Ordered less w xs;
}
