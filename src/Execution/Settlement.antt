-- ===== src/Execution/Settlement.antt =====
-- internal/execution/position_manager.go, around a funding settlement: the check before it with the
-- widened take-profits, the fee after it, and the closing that avoids it. A tick reads the clock
-- once; the ids of forced closes are arguments, by symbol.
pub mod Fees
use Prim.Native.String.{String}
use text.Mathlib.Text.{◌==◌ as str_eq}
use binance_futures.Base.{
  ℕ, ◌+◌, ◌*◌, Bool, true, false, not, ◌&&◌, ◌||◌, Option, none, some, List, [], ◌∷◌, ltb, leb,
  if◌then◌else◌,
}
use binance_futures.Base.Int.{pos, negsuc}
use binance_futures.Float64.{Float64, nought, hundred}
use binance_futures.Domain.{Position, EntryMode, FundingRate}
use binance_futures.Scheduler.{minute}
use binance_futures.Execution.World.{
  Config, Exchange, World, place_order, cancel, set_active_position,
}
use binance_futures.Execution.Entry.{take_profit_request, below}
use binance_futures.Execution.Protection.{force_close}

-- `pos.EntryMode == …`
abbrev pub is_after : EntryMode → Bool
is_after EntryMode.after = true
is_after _ = false

abbrev pub is_before_settlement : EntryMode → Bool
is_before_settlement EntryMode.frontrun = true
is_before_settlement EntryMode.last_minute = true
is_before_settlement _ = false

abbrev pub is_set : Option ℕ → Bool
is_set none = false
is_set (some _) = true

module _ {F : Type 0} ⦃f : Float64 F⦄ where
  open f use {lit, add, sub, mul, div, abs, lt, eq}

  pub pre_settlement_threshold : F → F
  pre_settlement_threshold rate = abs (sub (lit (pos 5) 2) (abs rate))

  -- A rate below -1 %.
  abbrev pub exits_fully : Position F → Bool
  exits_fully p = lt p.funding_rate_at_entry (lit (negsuc 0) 2)

  -- The settlement, if it is known.
  abbrev pub next_funding_of : Option (FundingRate F) → Option ℕ
  next_funding_of none = none
  next_funding_of (some i) = i.next_funding

  -- The price, if it is known and not 0.
  abbrev pub known_price : Option F → Option F
  known_price none = none
  known_price (some v) = if eq v nought then none else some v

  module _ (c : Config F) (x : Exchange F) where
    -- `pct` and the funding rate at entry, in percent.
    abbrev pub widened : F → Position F → F
    widened pct p = add pct (abs (mul p.funding_rate_at_entry hundred))

    abbrev pub place_tp2 : Position F → World F → Position F × World F
    place_tp2 p w =
        let price = below p.entry_price (widened c.tp2_pct p) in
        let qty = mul p.original_qty (sub (lit (pos 1) 0) (div c.tp1_size_pct hundred)) in
        let (order, w') = place_order x (take_profit_request p.symbol qty price) w in
        elim order [
          | none ↦ (p, w')
          | some o ↦ (record p { tp2_order_id = o.client_order_id; tp2_price = price }, w')
        ]

    unfoldable pub adjust_tp2_pre_settlement : Position F → World F → Position F × World F
    adjust_tp2_pre_settlement p w =
        let (done, w') = cancel x p.symbol p.tp2_order_id w in
        let p' = record p { tp2_order_id = "" } in
        if not done then (p, w') else if exits_fully p then (p', w') else place_tp2 p' w'

    abbrev pub tp1_fraction : Position F → F
    tp1_fraction p = if exits_fully p then lit (pos 1) 0 else div c.tp1_size_pct hundred

    unfoldable pub place_widened : Position F → World F → World F
    place_widened p w =
        let price = below p.entry_price (widened c.tp_pct p) in
        let (order, w') =
          place_order x (take_profit_request p.symbol (mul p.original_qty (tp1_fraction p)) price)
            w in
        elim order [
          | none ↦ w'
          | some o ↦
              set_active_position
                (record p {
                  tp_order_id = o.client_order_id;
                  take_profit = price;
                  tp_widened = true;
                })
                w'
        ]

    -- From the cancelling of TP1 on.
    unfoldable pub replace_tp1 : Position F → World F → World F
    unfolding place_widened
    replace_tp1 p w =
        let (done, w') = cancel x p.symbol p.tp_order_id w in
        if not done then w' else place_widened (record p { tp_order_id = "" }) w'

    unfoldable pub widen_tp : Position F → World F → World F
    unfolding adjust_tp2_pre_settlement replace_tp1
    widen_tp p w =
        if str_eq p.tp2_order_id ""
        then replace_tp1 p w
        else let (q, w') = adjust_tp2_pre_settlement p w in replace_tp1 q w'

    -- `timeUntil > checkBefore || timeUntil < 0` is false.
    abbrev pub in_check_window : ℕ → Option ℕ → Bool
    in_check_window now none = false
    in_check_window now (some next) =
        leb now next && leb next (now + c.check_before_minutes * minute)

    -- The two rules, at a known price.
    abbrev apply_rules : String → Position F → Option F → World F → World F
    unfolding widen_tp
    apply_rules client_id p none w = w
    apply_rules client_id p (some price) w =
        if lt (pre_settlement_threshold p.funding_rate_at_entry)
          (div (sub price p.entry_price) p.entry_price)
        then force_close c x p client_id w
        else if c.widen_tp_on_miss && not p.tp_widened && not (str_eq p.tp_order_id "")
        then widen_tp p w
        else w

    unfoldable pub check_pre_settlement :
        ℕ → Option (FundingRate F) → Option F → String → Position F → World F → World F
    unfolding apply_rules
    check_pre_settlement now info price client_id p w =
        if not (is_before_settlement p.entry_mode)
        then w
        else if p.tp1_filled
        then w
        else if not (in_check_window now (next_funding_of info))
        then w
        else apply_rules client_id p (known_price price) w

    abbrev pub settled_position : ℕ → Position F → Position F
    settled_position now p =
        let pct = abs p.funding_rate_at_entry in
        record p {
          funding_fee_paid = true;
          funding_fee_paid_pct = pct;
          settlement_passed_at = some now;
          funding_fee_paid_amount = mul (mul pct p.quantity) p.entry_price;
        }

    unfoldable pub on_settlement_passed : ℕ → Position F → World F → World F
    on_settlement_passed now p w = set_active_position (settled_position now p) w

    -- `time.Until(fi.NextFunding) > 50*time.Minute`
    abbrev pub far_from_next : ℕ → Option ℕ → Bool
    far_from_next now none = false
    far_from_next now (some next) = ltb (now + 50 * minute) next

    unfoldable pub check_settlement_passed :
        ℕ → Option (FundingRate F) → Position F → World F → World F
    unfolding on_settlement_passed
    check_settlement_passed now info p w =
        if p.funding_fee_paid || is_set p.settlement_passed_at
        then w
        else if eq p.funding_rate_at_entry nought
        then w
        else if far_from_next now (next_funding_of info)
        then on_settlement_passed now p w
        else w

    module _ (now : ℕ) (info : String → Option (FundingRate F)) (price : String → Option F)
        (client_id : String → String) where
      abbrev pre_settlement_of : List (Position F) → World F → World F
      unfolding check_pre_settlement check_settlement_passed
      pre_settlement_of [] w = w
      pre_settlement_of (p ∷ ps) w = pre_settlement_of ps (
          if is_after p.entry_mode
          then w
          else check_settlement_passed now (info p.symbol) p
              (check_pre_settlement now (info p.symbol) (price p.symbol) (client_id p.symbol) p w))

      -- Each position is handled as it was read at the start.
      pub check_pre_settlement_all : World F → World F
      unfolding pre_settlement_of
      check_pre_settlement_all w = pre_settlement_of w.active w

      -- `timeUntil <= 0 || timeUntil > closeWindow` is false.
      abbrev pub in_close_window : Option ℕ → Bool
      in_close_window none = false
      in_close_window (some next) = ltb now next && leb next (now + c.close_before_minutes * minute)

      abbrev pub is_avoided : Position F → Bool
      is_avoided p =
          (is_set p.settlement_passed_at || is_after p.entry_mode)
          && in_close_window (next_funding_of (info p.symbol))

      abbrev avoid_of : List (Position F) → World F → World F
      avoid_of [] w = w
      avoid_of (p ∷ ps) w =
          avoid_of ps (if is_avoided p then force_close c x p (client_id p.symbol) w else w)

      unfoldable pub check_funding_avoidance : World F → World F
      check_funding_avoidance w = avoid_of w.active w
