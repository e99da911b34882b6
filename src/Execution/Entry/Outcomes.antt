-- ===== src/Execution/Entry/Outcomes.antt =====
-- What `finalizeSLTP` leaves behind, by the answers of the exchange.
use Prim.Native.String.{String}
use text.Mathlib.Text.{◌==◌ as str_eq}
use binance_futures.Base.{
  ℕ, ◌≡◌, ◌⊎◌, inl, inr, refl, not, some, ◌∷◌, ◌==◌, arith, if◌then◌else◌, keep, Option-cases,
}
use binance_futures.Base.{true, none}
use binance_futures.Float64.{Float64, nought, hundred}
use binance_futures.Domain.{Position, PendingEntry, OrderResult}
use binance_futures.Execution.World.{Config, Exchange, World, Call, cancel_order, find_position}
use binance_futures.Execution.Calls.{buy_stop, buy_limit}
use binance_futures.Execution.Store.{find_position-store_position}
use binance_futures.Execution.Entry.{
  Levels, levels, opened_trade, finalize_sltp, protect_profit, activate,
}

module _ {F : Type 0} ⦃f : Float64 F⦄ (c : Config F) (x : Exchange F) (pending : PendingEntry F)
    (avg filled : F) (at : ℕ) where
  open f use {lit, add, sub, mul, div, eq}

  -- The filled quantity, or the ordered one where the exchange reports none, and the prices of the
  -- stop and of the first take-profit by the percentages.
  abbrev lv : Levels F
  lv =
      let qty = if eq filled nought then pending.quantity else filled in
      record {
        filled_qty = qty;
        stop_loss = add avg (mul avg (div c.sl_pct hundred));
        tp1_price = sub avg (mul avg (div pending.tp_pct hundred));
        tp1_qty = mul qty (div c.tp1_size_pct hundred);
      }

  -- The calls for the stop and for the first take-profit, and the stop's answer.
  abbrev pub stop_call : Call F
  stop_call = buy_stop pending.symbol (lv.stop_loss)

  abbrev pub profit_call : Call F
  profit_call = buy_limit pending.symbol (lv.tp1_qty) (lv.tp1_price)

  -- The entry became a position that the exchange protects: a stop and a take-profit were accepted
  -- and the position under the entry's symbol has their ids, its trade is inserted once, and its
  -- pending entry is gone. Other positions and the pending protections are as before.
  pub record Activates (w w' : World F) : Type 0 where
    pub stop : OrderResult F
    pub profit : OrderResult F
    pub stop_placed : x.place w.calls stop_call ≡ some stop
    pub profit_placed : x.place (stop_call ∷ w.calls) profit_call ≡ some profit
    pub position : Position F
    pub symbol : position.symbol ≡ pending.symbol
    pub stored :
        (s : String)
        → find_position s w'.active
          ≡ (if str_eq pending.symbol s then some position else find_position s w.active)
    pub stop_id : position.sl_order_id ≡ stop.client_order_id
    pub profit_id : position.tp_order_id ≡ profit.client_order_id
    pub size : (position.quantity ≡ lv.filled_qty) × (position.original_qty ≡ position.quantity)
    pub traded : w'.trades ≡ opened_trade c pending avg (lv) at ∷ w.trades
    pub linked : position.trade_id ≡ pending.trade_id
    pub entries : w'.entries ≡ keep (λ o. not (o.id == pending.trade_id)) w.entries
    pub protections : w'.protections ≡ w.protections

  -- The entry is left to the retry: both orders are recorded as missing, with the levels of the
  -- fill and no retry made, and no position, trade or pending entry is written.
  pub record Postpones (w w' : World F) : Type 0 where
    pub recorded :
        w'.protections
        ≡ (record {
          symbol = pending.symbol;
          needs_sl = true;
          needs_tp = true;
          entry_price = avg;
          quantity = lv.filled_qty;
          tp1_qty = lv.tp1_qty;
          stop_loss = lv.stop_loss;
          take_profit = lv.tp1_price;
          retries = 0;
          last_attempt = none;
        })
          ∷ keep (λ p. not (str_eq p.symbol pending.symbol)) w.protections
    pub active : w'.active ≡ w.active
    pub trades : w'.trades ≡ w.trades
    pub entries : w'.entries ≡ w.entries

  pub activate-Activates :
      (stop profit : OrderResult F) (w w' : World F)
      → x.place w.calls stop_call ≡ some stop
      → x.place (stop_call ∷ w.calls) profit_call ≡ some profit
      → w' ≡ record w { calls = profit_call ∷ stop_call ∷ w.calls }
      → Activates w
          (activate c x pending avg (lv) at stop.client_order_id profit.client_order_id w')
  unfolding activate levels
  activate-Activates stop profit w w' a b e = rw e (record {
    stop = stop;
    profit = profit;
    stop_placed = a;
    profit_placed = b;
    position = _;
    symbol = refl;
    stored = λ s. find_position-store_position s _ w.active;
    stop_id = refl;
    profit_id = refl;
    size = (refl, refl);
    traded = refl;
    linked = refl;
    entries = refl;
    protections = refl;
  })

  -- A filled entry either becomes a position protected by an accepted stop and an accepted
  -- take-profit, or both orders are recorded as missing, at the levels of the fill, and no position,
  -- trade or pending entry is written. In the latter case, if the stop was accepted, the calls after
  -- it are the take-profit and last the one that asks to cancel that stop.
  pub finalize_sltp_outcomes :
      (w : World F)
      → let w' = finalize_sltp c x pending avg filled at w in
        Activates w w'
        ⊎ (Postpones w w'
            × ((stop : OrderResult F)
                → x.place w.calls stop_call ≡ some stop
                → w'.calls
                  ≡ cancel_order pending.symbol stop.client_order_id
                    ∷ profit_call
                    ∷ stop_call
                    ∷ w.calls))
  unfolding finalize_sltp protect_profit levels
  finalize_sltp_outcomes w = elim (Option-cases (x.place w.calls stop_call)) [
    | inl n ↦ rw n (
        inr (
          record { recorded = refl; active = refl; trades = refl; entries = refl },
          λ stop h. ground arith,
        ))
    | inr (stop, e) ↦ elim (Option-cases (x.place (stop_call ∷ w.calls) profit_call)) [
      | inl n ↦
          rw (e, n)
            (inr (
              record { recorded = refl; active = refl; trades = refl; entries = refl },
              λ o h. ground arith,
            ))
      | inr (profit, e') ↦ rw (e, e') (inl (activate-Activates stop profit w _ e e' refl))
    ]
  ]
