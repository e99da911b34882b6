-- ===== src/Execution/Reconcile/Replacing.antt =====
-- What `Reconcile` does for a position whose orders it does not recognise.
use Prim.Native.String.{String}
use text.Mathlib.Text.{◌==◌ as str_eq}
use binance_futures.Base.{
  ℕ, ◌≡◌, refl, ap, ◌∙◌, ◌||◌, true, false, none, some, List, [], ◌∷◌, All, arith, if◌then◌else◌,
}
use binance_futures.Float64.{Float64}
use binance_futures.Domain.{OrderResult, Position}
use binance_futures.Execution.World.{Exchange, World, set_active_position}
use binance_futures.Execution.Entry.{stop_market_request, take_profit_request}
use binance_futures.Execution.Reconcile.{
  OpenOrder, live_by_id, cancel_stale, needs_order, verify_protection, verify_and_replace,
  replace_missing_orders, replace_profit, send_stop, send_profit,
}

module _ {F : Type 0} ⦃f : Float64 F⦄ (id_text : ℕ → String) (x : Exchange F) where
  -- No live order has this text as its number.
  abbrev pub IsNoNumber : String → List (OpenOrder F) → Type 0
  IsNoNumber id orders = All (λ o. str_eq (id_text o.order_id) id ≡ false) orders

  live_by_id-none :
      (id : String) (orders : List (OpenOrder F))
      → IsNoNumber id orders
      → live_by_id id_text id orders ≡ none
  live_by_id-none id [] h = refl
  live_by_id-none id (o ∷ orders) (a, h) =
      let rest = live_by_id-none id orders h in rw (rest, a) refl

  needs_order_unknown :
      (id : String) (price : F) (orders : List (OpenOrder F))
      → IsNoNumber id orders
      → needs_order id_text id price orders ≡ true
  needs_order_unknown id price orders h =
      let none_live = live_by_id-none id orders h in ground (arith, none_live)

  cancel_stale_unknown :
      (symbol id : String) (orders : List (OpenOrder F)) (w : World F)
      → IsNoNumber id orders
      → cancel_stale id_text x symbol id orders w ≡ w
  cancel_stale_unknown symbol id orders w h =
      let none_live = live_by_id-none id orders h in ground (arith, none_live)

  verify_protection_unknown :
      (orders : List (OpenOrder F)) (p : Position F)
      → IsNoNumber p.sl_order_id orders
      → IsNoNumber p.tp_order_id orders
      → verify_protection id_text p orders ≡ (true, true)
  unfolding verify_protection
  verify_protection_unknown orders p a b =
      ap (λ t. (t, needs_order id_text p.tp_order_id p.take_profit orders))
        (needs_order_unknown p.sl_order_id p.stop_loss orders a)
      ∙ ap (λ t. (true, t)) (needs_order_unknown p.tp_order_id p.take_profit orders b)

  replace_profit_unknown :
      (orders : List (OpenOrder F)) (p : Position F) (w : World F) (tp : OrderResult F)
      → IsNoNumber p.tp_order_id orders
      → let profit = take_profit_request p.symbol p.original_qty p.take_profit in
        x.place w.calls profit ≡ some tp
        → replace_profit id_text x true orders p w
          ≡ set_active_position
              (record p { tp_order_id = tp.client_order_id })
              (record w { calls = profit ∷ w.calls })
  replace_profit_unknown orders p w tp b k =
      ap (send_profit id_text x p) (cancel_stale_unknown p.symbol p.tp_order_id orders w b)
      ∙ rw k refl

  replace_both :
      (orders : List (OpenOrder F)) (p : Position F) (w : World F) (sl tp : OrderResult F)
      → IsNoNumber p.sl_order_id orders
      → IsNoNumber p.tp_order_id orders
      → let stop = stop_market_request p.symbol p.stop_loss in
        let profit = take_profit_request p.symbol p.original_qty p.take_profit in
        x.place w.calls stop ≡ some sl
        → x.place (stop ∷ w.calls) profit ≡ some tp
        → replace_missing_orders id_text x true true orders p w
          ≡ set_active_position
              (record p { sl_order_id = sl.client_order_id; tp_order_id = tp.client_order_id })
              (record w { calls = profit ∷ stop ∷ w.calls })
  unfolding replace_missing_orders
  replace_both orders p w sl tp a b h k =
      let stop = stop_market_request p.symbol p.stop_loss in
      ap (send_stop id_text x true orders p)
        (cancel_stale_unknown p.symbol p.sl_order_id orders w a)
      ∙ rw h (
          replace_profit_unknown orders (record p { sl_order_id = sl.client_order_id })
            (record w { calls = stop ∷ w.calls }) tp b k)

  -- A cached position whose stop and take-profit are no numbers of live orders, as the client order
  -- identifiers that every other part stores are not, is given a second stop and a second take-profit,
  -- for its whole original quantity; what the exchange still has of the first ones is not cancelled.
  pub verify_and_replace_duplicates :
      (orders : List (OpenOrder F)) (p : Position F) (w : World F) (sl tp : OrderResult F)
      → IsNoNumber p.sl_order_id orders
      → IsNoNumber p.tp_order_id orders
      → let stop = stop_market_request p.symbol p.stop_loss in
        let profit = take_profit_request p.symbol p.original_qty p.take_profit in
        x.place w.calls stop ≡ some sl
        → x.place (stop ∷ w.calls) profit ≡ some tp
        → verify_and_replace id_text x orders p w
          ≡ set_active_position
              (record p { sl_order_id = sl.client_order_id; tp_order_id = tp.client_order_id })
              (record w { calls = profit ∷ stop ∷ w.calls })
  unfolding verify_and_replace
  verify_and_replace_duplicates orders p w sl tp a b h k =
      ap (λ v. if v.0 || v.1 then replace_missing_orders id_text x v.0 v.1 orders p w else w)
        (verify_protection_unknown orders p a b)
      ∙ replace_both orders p w sl tp a b h k
