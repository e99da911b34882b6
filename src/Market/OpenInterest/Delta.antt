-- ===== src/Market/OpenInterest/Delta.antt =====
-- OIHistory.Delta of internal/indicator/oi_delta.go against a history that drops no snapshot.
use Prim.Native.String.{String}
use text.Mathlib.Text.{◌==◌ as str_eq}
use binance_futures.Base.{
  ℕ, zero, suc, ◌-◌, ◌≤◌, ◌<◌, ◌≡◌, refl, sym, ap, ◌∙◌, inl, inr, Bool-cases, Option, none, some,
  true, List, [], ◌∷◌, ◌++◌, length, length-append, drop, ltb, ltb→lt, if◌then◌else◌, arith,
  last_of, last_of-drop, last_of-past, last_of-short,
}
use binance_futures.Float64.{Float64, nought}
use binance_futures.Market.OpenInterest.{
  OiSnapshot, OiCache, DeltaResult, oi_history_max_size, new_oi_cache, add_snapshot, update_oi,
  purge_oi, latest_before, newest, answer, delta_of, delta,
}

pub data OiCall (F : Type 0) : Type 0 where
  update : String → F → ℕ → OiCall F
  purge : String → OiCall F

drop-append {ℓ} :
    {A : Type ℓ} (k : ℕ) (xs ys : List A) → k ≤ length xs → drop k (xs ++ ys) ≡ drop k xs ++ ys
drop-append zero xs ys h = refl
drop-append (suc zero) [] ys h = absurd (omega (arith, h))
drop-append (suc (suc k)) [] ys h = absurd (omega (arith, h))
drop-append (suc k) (x ∷ xs) ys h = drop-append k xs ys (omega (arith, h))

-- A bound that is kept at every step is the bound of the whole.
last_of-append {ℓ} :
    {A : Type ℓ} (n : ℕ) (xs : List A) (y : A)
    → last_of n (last_of n xs ++ y ∷ []) ≡ last_of n (xs ++ y ∷ [])
last_of-append n xs y = elim (Bool-cases (ltb n (length xs))) [
  | inl e ↦
      let longer : n < length xs = ltb→lt n (length xs) e in
      let grown = length-append xs (y ∷ []) in
      ap (λ l. last_of n (l ++ y ∷ [])) (last_of-drop n xs)
      ∙ ap (last_of n) (sym (drop-append (length xs - n) xs (y ∷ []) (omega arith)))
      ∙ last_of-past n (length xs - n) (xs ++ y ∷ []) (omega (arith, grown))
  | inr e ↦ ap (λ l. last_of n (l ++ y ∷ [])) (last_of-short n xs (ground arith))
]

module _ {F : Type 0} where
  abbrev pub run : List (OiCall F) → OiCache F
  run [] = new_oi_cache
  run (OiCall.update s oi now ∷ calls) = update_oi s oi now (run calls)
  run (OiCall.purge s ∷ calls) = purge_oi s (run calls)

  -- The history of one symbol, the latest call first.
  abbrev pub history : String → List (OiCall F) → List (OiSnapshot F)
  history symbol [] = []
  history symbol (OiCall.update s oi now ∷ calls) =
      let before = history symbol calls in
      if str_eq s symbol then before ++ record { oi = oi; timestamp = now } ∷ [] else before
  history symbol (OiCall.purge s ∷ calls) =
      let before = history symbol calls in if str_eq s symbol then [] else before

  snapshots-history :
      (symbol : String) (calls : List (OiCall F))
      → (run calls).snapshots symbol ≡ last_of oi_history_max_size (history symbol calls)
  unfolding update_oi purge_oi
  snapshots-history symbol [] = refl
  snapshots-history symbol (OiCall.update s oi now ∷ calls) =
      let past = snapshots-history symbol calls in
      let step : add_snapshot oi now ((run calls).snapshots symbol)
          ≡ last_of oi_history_max_size
              (history symbol calls ++ record { oi = oi; timestamp = now } ∷ []) =
        ap (add_snapshot oi now) past
        ∙ last_of-append oi_history_max_size (history symbol calls)
            (record { oi = oi; timestamp = now }) in
      elim (Bool-cases (str_eq s symbol)) [ inl e ↦ rw e step | inr e ↦ rw e past ]
  snapshots-history symbol (OiCall.purge s ∷ calls) =
      let past = snapshots-history symbol calls in
      elim (Bool-cases (str_eq s symbol)) [ inl e ↦ rw e refl | inr e ↦ rw e past ]

  newest-drop :
      (k : ℕ) (snaps : List (OiSnapshot F))
      → k < length snaps
      → newest (drop k snaps) ≡ newest snaps
  newest-drop zero snaps h = refl
  newest-drop (suc k) [] h = absurd (omega (arith, h))
  newest-drop (suc k) (s ∷ []) h = absurd (omega (arith, h))
  newest-drop (suc k) (s ∷ t ∷ snaps) h = newest-drop k (t ∷ snaps) (omega (arith, h))

  latest_before-drop :
      (window now k : ℕ) (snaps : List (OiSnapshot F)) (s : OiSnapshot F)
      → latest_before window now (drop k snaps) ≡ some s
      → latest_before window now snaps ≡ some s
  latest_before-drop window now zero snaps s h = h
  latest_before-drop window now (suc k) [] s h = h
  latest_before-drop window now (suc k) (x ∷ snaps) s h =
      let later = latest_before-drop window now k snaps s h in rw later refl

  newest-last_of :
      (snaps : List (OiSnapshot F)) → newest (last_of oi_history_max_size snaps) ≡ newest snaps
  newest-last_of [] = refl
  newest-last_of (s ∷ snaps) =
      ap newest (last_of-drop oi_history_max_size (s ∷ snaps))
      ∙ newest-drop (length (s ∷ snaps) - oi_history_max_size) (s ∷ snaps) (omega arith)

  latest_before-last_of :
      (window now : ℕ) (snaps : List (OiSnapshot F)) (s : OiSnapshot F)
      → latest_before window now (last_of oi_history_max_size snaps) ≡ some s
      → latest_before window now snaps ≡ some s
  latest_before-last_of window now snaps s h =
      latest_before-drop window now (length snaps - oi_history_max_size) snaps s
        (ap (latest_before window now) (sym (last_of-drop oi_history_max_size snaps)) ∙ h)

module _ {F : Type 0} ⦃f : Float64 F⦄ where
  open f use {eq}

  answer-found :
      eq nought nought ≡ true
      → (current past older : Option (OiSnapshot F)) (d : F)
      → ((s : OiSnapshot F) → past ≡ some s → older ≡ some s)
      → answer current past ≡ DeltaResult.change d
      → answer current older ≡ DeltaResult.change d
  answer-found zero_eq none past older d same h = absurd (ground (arith, h))
  answer-found zero_eq (some current) none older d same h = absurd (ground (arith, h, zero_eq))
  answer-found zero_eq (some current) (some past) older d same h = rw (same past refl) h

  delta_of-last_of :
      eq nought nought ≡ true
      → (window now : ℕ) (snaps : List (OiSnapshot F)) (d : F)
      → delta_of window now (last_of oi_history_max_size snaps) ≡ DeltaResult.change d
      → delta_of window now snaps ≡ DeltaResult.change d
  unfolding delta_of
  delta_of-last_of zero_eq window now snaps d h =
      let kept = latest_before window now (last_of oi_history_max_size snaps) in
      answer-found zero_eq (newest snaps) kept (latest_before window now snaps) d
        (latest_before-last_of window now snaps)
        (ap (λ c. answer c kept) (sym (newest-last_of snaps)) ∙ h)

  -- After any calls of `Update` and `Purge`, a change that `Delta` gives is the one of the history that
  -- drops no snapshot, where 0 equals itself: the bound of 288 snapshots may only refuse a window, it
  -- never changes an answer.
  pub delta-history :
      eq nought nought ≡ true
      → (symbol : String) (window now : ℕ) (calls : List (OiCall F)) (d : F)
      → delta symbol window now (run calls) ≡ DeltaResult.change d
      → delta_of window now (history symbol calls) ≡ DeltaResult.change d
  unfolding delta
  delta-history zero_eq symbol window now calls d h =
      delta_of-last_of zero_eq window now (history symbol calls) d
        (ap (delta_of window now) (sym (snapshots-history symbol calls)) ∙ h)
