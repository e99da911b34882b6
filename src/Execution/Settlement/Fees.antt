-- ===== src/Execution/Settlement/Fees.antt =====
-- The funding fee of a position, and the orders and closes around a settlement.
use Prim.Native.String.{String}
use text.Mathlib.TextEquality.{eq_iff}
use binance_futures.Base.{
  ℕ, ◌≡◌, ◌≢◌, refl, true, false, Option, none, some, List, [], ◌∷◌, All, arith,
}
use binance_futures.Float64.{Float64, nought}
use binance_futures.Domain.{Position, FundingRate, EntryMode}
use binance_futures.Execution.World.{
  Config, Exchange, World, Call, cancel, cancel_order, find_position, set_active_position,
}
use binance_futures.Execution.Store.{find_position-store_position}
use binance_futures.Execution.Entry.{take_profit_request, below}
use binance_futures.Execution.Settlement.{
  avoid_of, settled_position, far_from_next, next_funding_of, on_settlement_passed,
  check_settlement_passed, tp1_fraction, widened, place_widened, replace_tp1, widen_tp, is_avoided,
  check_funding_avoidance,
}

module _ {F : Type 0} ⦃f : Float64 F⦄ (c : Config F) (x : Exchange F) where
  open f use {mul, abs, eq}

  passes :
      (now : ℕ) (info : Option (FundingRate F)) (p : Position F) (w : World F)
      → p.funding_fee_paid ≡ false
      → p.settlement_passed_at ≡ none
      → eq p.funding_rate_at_entry nought ≡ false
      → far_from_next c x now (next_funding_of info) ≡ true
      → check_settlement_passed c x now info p w ≡ on_settlement_passed c x now p w
  unfolding check_settlement_passed
  passes now info p w a b d e = ground (arith, a, b, d, e)

  stored :
      (p : Position F) (w : World F)
      → find_position p.symbol (set_active_position p w).active ≡ some p
  stored p w =
      ground (arith, find_position-store_position p.symbol p w.active, eq_iff p.symbol p.symbol)

  unchanged :
      (now : ℕ) (info : Option (FundingRate F)) (p : Position F) (w : World F)
      → p.funding_fee_paid ≡ true
      → check_settlement_passed c x now info p w ≡ w
  unfolding check_settlement_passed
  unchanged now info p w h = ground (arith, h)

  -- For a position without a fee that was entered at a rate other than 0, and whose next settlement
  -- is more than 50 minutes away, the fee is stored, as the absolute rate of its quantity at its
  -- entry price; and no later check of the stored position changes anything.
  pub check_settlement_passed_once :
      (now : ℕ) (info : Option (FundingRate F)) (p : Position F) (w : World F)
      → p.funding_fee_paid ≡ false
      → p.settlement_passed_at ≡ none
      → eq p.funding_rate_at_entry nought ≡ false
      → far_from_next c x now (next_funding_of info) ≡ true
      → (q : Position F) × (find_position p.symbol (check_settlement_passed c x now info p w).active
          ≡ some q)
        × (q.funding_fee_paid_amount
            ≡ mul (mul (abs p.funding_rate_at_entry) p.quantity) p.entry_price)
        × ((later : ℕ) (info' : Option (FundingRate F)) (v : World F)
            → check_settlement_passed c x later info' q v ≡ v)
  unfolding on_settlement_passed
  check_settlement_passed_once now info p w a b d e =
      let q = settled_position c x now p in
      (
        q,
        rw (passes now info p w a b d e) (stored q w),
        refl,
        λ later info' v. unchanged later info' q v refl,
      )

  no_tp2 :
      (p : Position F) (w : World F) → p.tp2_order_id ≡ "" → widen_tp c x p w ≡ replace_tp1 c x p w
  unfolding widen_tp
  no_tp2 p w a = ground (arith, a, eq_iff p.tp2_order_id "")

  cancelled_tp1 :
      (p : Position F) (w : World F)
      → x.cancel w.calls p.symbol p.tp_order_id ≡ true
      → replace_tp1 c x p w
        ≡ place_widened c x (record p { tp_order_id = "" }) (cancel x p.symbol p.tp_order_id w).1
  unfolding replace_tp1
  cancelled_tp1 p w b = ground (arith, b)

  refused_tp1 :
      (p : Position F) (w : World F)
      → ((call : Call F) → x.place w.calls call ≡ none)
      → (place_widened c x p w).active ≡ w.active
  unfolding place_widened
  refused_tp1 p w r =
      rw
        (r (
          take_profit_request p.symbol (mul p.original_qty (tp1_fraction c x p))
            (below p.entry_price (widened c x c.tp_pct p))))
        refl

  -- If the exchange cancels TP1 and refuses its wider replacement, the cached position still has the
  -- cancelled order's id and is not marked as widened, and no take-profit is sent.
  pub widen_tp_lost :
      (p : Position F) (w : World F)
      → p.tp2_order_id ≡ ""
      → x.cancel w.calls p.symbol p.tp_order_id ≡ true
      → ((call : Call F) → x.place (cancel_order p.symbol p.tp_order_id ∷ w.calls) call ≡ none)
      → (widen_tp c x p w).active ≡ w.active
  widen_tp_lost p w a b r =
      rw (no_tp2 p w a, cancelled_tp1 p w b)
        (refused_tp1 (record p { tp_order_id = "" }) (cancel x p.symbol p.tp_order_id w).1 r)

  avoid_of-skips :
      (now : ℕ) (info : String → Option (FundingRate F)) (price : String → Option F)
      (client_id : String → String) (ps : List (Position F)) (w : World F)
      → All (λ p. (p.settlement_passed_at ≡ none) × (p.entry_mode ≢ EntryMode.after)) ps
      → avoid_of c x now info price client_id ps w ≡ w
  avoid_of-skips now info price client_id [] w h = refl
  avoid_of-skips now info price client_id (p ∷ ps) w ((a, b), h) =
      let no : is_avoided c x now info price client_id p ≡ false = ground (arith, a, b) in
      rw no (avoid_of-skips now info price client_id ps w h)

  -- Funding avoidance sends nothing while every position was entered before its settlement and none
  -- has passed.
  pub check_funding_avoidance_skips :
      (now : ℕ) (info : String → Option (FundingRate F)) (price : String → Option F)
      (client_id : String → String) (w : World F)
      → All (λ p. (p.settlement_passed_at ≡ none) × (p.entry_mode ≢ EntryMode.after)) w.active
      → check_funding_avoidance c x now info price client_id w ≡ w
  unfolding check_funding_avoidance
  check_funding_avoidance_skips now info price client_id w h =
      avoid_of-skips now info price client_id w.active w h
