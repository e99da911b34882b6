-- ===== src/App/Scan/Ends.antt =====
-- Where a scan ends with an intent that it has enqueued: how such a statement passes the stages.
use mathlib.Core.Path.{subst}
use binance_futures.Base.{◌≡◌, ap, refl, Bool, true, false, List, [], ◌∷◌, if◌then◌else◌}
use binance_futures.Intent.{TradeIntent}
use binance_futures.App.Asking.{ScanResult, enqueued}
use binance_futures.App.Scan.{unless_empty}
use binance_futures.App.State.{AppState}

module _ {F : Type 0} where
  -- `P` of the intent and the fires, where a scan ends with an enqueued intent.
  pub record Enqueues (P : TradeIntent F → List (TradeIntent F) → Type 0)
      (x : ScanResult F × AppState F) : Type 0 where
    pub holds :
        (i : TradeIntent F) (fires : List (TradeIntent F)) → x.0 ≡ enqueued i fires → P i fires

  abbrev is_enqueued : ScanResult F → Bool
  is_enqueued (enqueued _ _) = true
  is_enqueued _ = false

  abbrev At : (TradeIntent F → List (TradeIntent F) → Type 0) → ScanResult F → Type 0
  At P (enqueued i fires) = P i fires
  At P _ = Unit

  module _ {P : TradeIntent F → List (TradeIntent F) → Type 0} where
    pub stops : (r : ScanResult F) (st : AppState F) → is_enqueued r ≡ false → Enqueues P (r, st)
    stops r st n = record { holds = λ i fires e. cc (n, ap is_enqueued e) }

    pub hands :
        (i : TradeIntent F) (fires : List (TradeIntent F)) (st : AppState F)
        → P i fires
        → Enqueues P (enqueued i fires, st)
    hands i fires st p = record { holds = λ j fires' e. subst (At P) e p }

    pub map-Enqueues :
        (Q : TradeIntent F → List (TradeIntent F) → Type 0) (x : ScanResult F × AppState F)
        → ((i : TradeIntent F) (fires : List (TradeIntent F)) → P i fires → Q i fires)
        → Enqueues P x
        → Enqueues Q x
    map-Enqueues Q x g h = record { holds = λ i fires e. g i fires (h.holds i fires e) }

    pub unless_empty-Enqueues :
        {A : Type 0} (r : ScanResult F) (xs : List A) (st : AppState F)
        (rest : ScanResult F × AppState F)
        → is_enqueued r ≡ false
        → Enqueues P rest
        → Enqueues P (unless_empty r xs st rest)
    unfolding unless_empty
    unless_empty-Enqueues r [] st rest n b = stops r st n
    unless_empty-Enqueues r (_ ∷ _) st rest n b = b

    pub if-Enqueues :
        (b : Bool) (x y : ScanResult F × AppState F)
        → Enqueues P x
        → (b ≡ false → Enqueues P y)
        → Enqueues P (if b then x else y)
    if-Enqueues true x y a h = a
    if-Enqueues false x y a h = h refl
