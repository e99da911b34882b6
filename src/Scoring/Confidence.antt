-- ===== src/Scoring/Confidence.antt =====
-- internal/scoring/scorer.go, `mapScoreToConfidence`.
use Prim.Native.String.{String}
use mathlib.Core.List.Permᴰ
use binance_futures.Base.{
  ◌≡◌, ◌⊎◌, inl, inr, refl, true, false, List, [], ◌∷◌, All, All-map, Bool-cases,
}
use binance_futures.Base.Sorting.{Sorter, IsSort, Ordered, All-perm}
use binance_futures.Float64.{Float64, nought}
use binance_futures.Domain.{ConfidenceTier}
use binance_futures.Scoring.{demands_more, first_reached, map_score_to_confidence}

module _ {F : Type 0} ⦃f : Float64 F⦄ where
  open f use {le, lt}

  -- `r` is what the tiers `ts` give a score: no reached tier demands more than the chosen one.
  pub record IsHighest (score : F) (ts : List (ConfidenceTier F)) (r : String × F) : Type 0 where
    pub chosen : ConfidenceTier F
    pub reached : le chosen.min_score score ≡ true
    pub given : r ≡ (chosen.confidence, chosen.position_size_pct)
    pub highest :
        All (λ t. (le t.min_score score ≡ false) ⊎ (lt chosen.min_score t.min_score ≡ false)) ts

  first_reached_cases :
      ((t : ConfidenceTier F) → lt t.min_score t.min_score ≡ false)
      → (score : F) (ts : List (ConfidenceTier F)) → Ordered demands_more ts
      → IsHighest score ts (first_reached score ts)
        ⊎ ((first_reached score ts ≡ ("SKIP", nought)) × All (λ t. le t.min_score score ≡ false) ts)
  first_reached_cases irr score [] o = inr (refl, tt)
  first_reached_cases irr score (t ∷ ts) (a, o) = elim (Bool-cases (le t.min_score score)) [
    | inl y ↦ rw y (
        inl (record {
          chosen = t;
          reached = y;
          given = refl;
          highest = (inr (irr t), All-map (λ u. demands_more u t ≡ false) _ (λ u h. inr h) ts a);
        }))
    | inr n ↦ elim (first_reached_cases irr score ts o) [
      | inl h ↦ rw n (
          inl (record {
            chosen = h.chosen;
            reached = h.reached;
            given = h.given;
            highest = (inl n, h.highest);
          }))
      | inr (e, all) ↦ rw n (inr (e, (refl, all)))
    ]
  ]

  module _ (s : Sorter (ConfidenceTier F)) (laws : IsSort s) where
    -- Where no minimum is less than itself and the sort has put the tiers in descending order, a
    -- score gets the label and the size of the highest of the configured tiers that it reaches, or
    -- "SKIP" and 0 if it reaches none.
    pub map_score_to_confidence_lem :
        ((t : ConfidenceTier F) → lt t.min_score t.min_score ≡ false)
        → (tiers : List (ConfidenceTier F)) → Ordered demands_more (s.sort demands_more tiers)
        → (score : F)
        → IsHighest score tiers (map_score_to_confidence s tiers score)
          ⊎ ((map_score_to_confidence s tiers score ≡ ("SKIP", nought))
              × All (λ t. le t.min_score score ≡ false) tiers)
    unfolding map_score_to_confidence
    map_score_to_confidence_lem irr tiers o score =
        elim (first_reached_cases irr score (s.sort demands_more tiers) o) [
          | inl h ↦ inl (record {
            chosen = h.chosen;
            reached = h.reached;
            given = h.given;
            highest = All-perm _ (Permᴰ.symm (laws.permutes demands_more tiers)) h.highest;
          })
          | inr (e, all) ↦ inr (e, All-perm _ (Permᴰ.symm (laws.permutes demands_more tiers)) all)
        ]
