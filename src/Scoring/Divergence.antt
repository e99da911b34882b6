-- ===== src/Scoring/Divergence.antt =====
-- internal/scoring/scorer.go, `rsidivCondition` and `evalRSIDivergence`.
use binance_futures.Base.{
  Bool-cases, sym, ◌∙◌, ℕ, ◌≡◌, ◌↔◌, ◌⊎◌, inl, inr, refl, Bool, true, false, ◌||◌, List, [], ◌∷◌,
  any, arith, if◌then◌else◌, leb, ltb,
}
use mathlib.Core.Path.{subst}
use text.Mathlib.TextEquality.{eq_iff}
use binance_futures.Base.Int.{pos}
use binance_futures.Float64.{Float64, nought}
use binance_futures.Domain.{RsiDivergence, PatternStrength, Timeframe}
use binance_futures.Scoring.{
  strength_rank, same_timeframe, note_strength, note_all, strong_count, medium_count, condition_of,
  rsidiv_condition, eval_rsi_divergence,
}

abbrev pub is_strong : PatternStrength → Bool
is_strong PatternStrength.strong = true
is_strong PatternStrength.medium = false
is_strong PatternStrength.weak = false

some_strong : List (Timeframe × PatternStrength) → Bool
some_strong m = leb 1 (strong_count m)

or_assoc : (a b c : Bool) → (a || b) || c ≡ a || (b || c)
or_assoc true b c = refl
or_assoc false b c = refl

or_swap : (a b c : Bool) → a || (b || c) ≡ b || (a || c)
or_swap true true c = refl
or_swap true false c = refl
or_swap false b c = refl

some_strong-cons :
    (u : Timeframe) (r : PatternStrength) (m : List (Timeframe × PatternStrength))
    → some_strong ((u, r) ∷ m) ≡ is_strong r || some_strong m
unfolding some_strong
some_strong-cons u PatternStrength.strong m = ground arith
some_strong-cons u PatternStrength.medium m = refl
some_strong-cons u PatternStrength.weak m = refl

is_strong-stronger :
    (r s : PatternStrength)
    → is_strong (if ltb (strength_rank s) (strength_rank r) then r else s)
      ≡ is_strong r || is_strong s
is_strong-stronger PatternStrength.strong PatternStrength.strong = refl
is_strong-stronger PatternStrength.strong PatternStrength.medium = refl
is_strong-stronger PatternStrength.strong PatternStrength.weak = refl
is_strong-stronger PatternStrength.medium PatternStrength.strong = refl
is_strong-stronger PatternStrength.medium PatternStrength.medium = refl
is_strong-stronger PatternStrength.medium PatternStrength.weak = refl
is_strong-stronger PatternStrength.weak PatternStrength.strong = refl
is_strong-stronger PatternStrength.weak PatternStrength.medium = refl
is_strong-stronger PatternStrength.weak PatternStrength.weak = refl

some_strong-note :
    (u : Timeframe) (r : PatternStrength) (m : List (Timeframe × PatternStrength))
    → some_strong (note_strength u r m) ≡ is_strong r || some_strong m
some_strong-note u r [] = some_strong-cons u r []
some_strong-note u r ((v, s) ∷ m) = elim (Bool-cases (same_timeframe u v)) [
  | inl y ↦
      rw
        (
          y,
          some_strong-cons v (if ltb (strength_rank s) (strength_rank r) then r else s) m,
          is_strong-stronger r s,
          some_strong-cons v s m,
        )
        (or_assoc (is_strong r) (is_strong s) (some_strong m))
  | inr n ↦
      rw
        (
          n,
          some_strong-cons v s (note_strength u r m),
          some_strong-cons v s m,
          some_strong-note u r m,
        )
        (or_swap (is_strong s) (is_strong r) (some_strong m))
]

some_strong-note_all :
    (ds : List RsiDivergence) (m : List (Timeframe × PatternStrength))
    → some_strong (note_all ds m) ≡ any (λ d. is_strong d.strength) ds || some_strong m
some_strong-note_all [] m = refl
some_strong-note_all (d ∷ ds) m = ground (
  arith,
  some_strong-note_all ds (note_strength d.timeframe d.strength m),
  some_strong-note d.timeframe d.strength m,
)

condition_of_strong :
    (a b : ℕ)
    → (leb 1 a ≡ true) ↔ ((condition_of a b ≡ "strong") ⊎ (condition_of a b ≡ "strong_multitf"))
condition_of_strong a b = ground (
  arith,
  eq_iff "medium_multitf" "strong",
  eq_iff "medium" "strong",
  eq_iff "weak" "strong",
  eq_iff "medium_multitf" "strong_multitf",
  eq_iff "medium" "strong_multitf",
  eq_iff "weak" "strong_multitf",
)

or_false : (b : Bool) → b || false ≡ b
or_false true = refl
or_false false = refl

-- The condition is "strong" or "strong_multitf" exactly if one of the divergences is strong.
pub rsidiv_condition_strong :
    (ds : List RsiDivergence)
    → (any (λ d. is_strong d.strength) ds ≡ true)
      ↔ ((rsidiv_condition ds ≡ "strong") ⊎ (rsidiv_condition ds ≡ "strong_multitf"))
unfolding rsidiv_condition some_strong
rsidiv_condition_strong [] = (
  (λ h. ground arith),
  λ h. elim h [
    | inl e ↦ ground (arith, eq_iff "none" "strong", e)
    | inr e ↦ ground (arith, eq_iff "none" "strong_multitf", e)
  ],
)
rsidiv_condition_strong (d ∷ ds) =
    let m = note_all (d ∷ ds) [] in
    let same : any (λ e. is_strong e.strength) (d ∷ ds) ≡ leb 1 (strong_count m) =
      sym (some_strong-note_all (d ∷ ds) [] ∙ or_false _) in
    subst
      (λ b.
        (b ≡ true)
        ↔ ((rsidiv_condition (d ∷ ds) ≡ "strong") ⊎ (rsidiv_condition (d ∷ ds) ≡ "strong_multitf")))
      (sym same) (condition_of_strong (strong_count m) (medium_count m))

abbrev pub medium_at : Timeframe → RsiDivergence
medium_at t = record { timeframe = t; strength = PatternStrength.medium }

module _ {F : Type 0} ⦃f : Float64 F⦄ where
  open f use {lit}

  -- A medium divergence scores 0.4, and a second one on another timeframe makes the score 0.
  pub eval_rsi_divergence_medium :
      (t u : Timeframe)
      → same_timeframe u t ≡ false
      → (◌≡◌ {A = F} (eval_rsi_divergence (medium_at t ∷ [])) (lit (pos 40) 2))
        × (◌≡◌ {A = F} (eval_rsi_divergence (medium_at t ∷ medium_at u ∷ [])) nought)
  unfolding eval_rsi_divergence rsidiv_condition
  eval_rsi_divergence_medium t u h = (refl, rw (eval_rsi_divergence, h) refl)
