-- ===== src/Execution/Protection/Sweep/Repairs.antt =====
-- What `emergencyProtect` leaves behind.
use Prim.Native.String.{String}
use text.Mathlib.Text.{◌==◌ as str_eq}
use binance_futures.Base.{
  ap, ◌≡◌, ◌≢◌, ◌⊎◌, inl, inr, ◌∙◌, refl, Bool, true, false, not, ◌||◌, Option, none, some, ◌∷◌,
  keep, if◌then◌else◌,
}
use binance_futures.Float64.{Float64, nought, hundred}
use binance_futures.Domain.{PendingProtection, Position, OrderResult}
use binance_futures.Execution.World.{
  set_pending_protection, remove_position, Config, Exchange, World, Call, PositionReply,
  get_position, unreachable, absent, found, find_position,
}
use binance_futures.Execution.Calls.{buy_stop, buy_limit}
use binance_futures.Execution.Store.{find_position-store_position, find_position-drop_position}
use binance_futures.Execution.Protection.{refused}
use binance_futures.Execution.Protection.Sweep.{
  id_or, Confirmed, missing_of, protected_position, recovered_trade, protect_confirmed, after_reply,
  emergency_protect,
}

module _ {F : Type 0} where
  -- Recording what is missing, or not, changes the protections only.
  record OnlyProtections (b : Bool) (q : PendingProtection F) (w w' : World F) : Type 0 where
    calls : w'.calls ≡ w.calls
    active : w'.active ≡ w.active
    trades : w'.trades ≡ w.trades
    protections : w'.protections ≡ (
        if b then q ∷ keep (λ o. not (str_eq o.symbol q.symbol)) w.protections else w.protections)

  set-OnlyProtections :
      (b : Bool) (q : PendingProtection F) (w : World F)
      → OnlyProtections b q w (if b then set_pending_protection q w else w)
  set-OnlyProtections true q w = record {
    calls = refl;
    active = refl;
    trades = refl;
    protections = refl;
  }
  set-OnlyProtections false q w = record {
    calls = refl;
    active = refl;
    trades = refl;
    protections = refl;
  }

module _ {F : Type 0} ⦃f : Float64 F⦄ (c : Config F) (x : Exchange F) (p : Position F) where
  open f use {add, sub, mul, div, lt, eq}

  -- The prices that lie the percentages of the settings above and below the entry.
  abbrev stop_price : Confirmed c x → F
  stop_price k = add k.entry_price (mul k.entry_price (div c.sl_pct hundred))

  abbrev profit_price : Confirmed c x → F
  profit_price k = sub k.entry_price (mul k.entry_price (div c.tp_pct hundred))

  -- The stop for the whole position, and the take-profit for the whole of it.
  abbrev pub stop_for : Confirmed c x → Call F
  stop_for k = buy_stop p.symbol (stop_price k)

  abbrev pub profit_for : Confirmed c x → Call F
  profit_for k = buy_limit p.symbol k.qty (profit_price k)

  -- What the position is protected for: the price and the quantity of the exchange where those are
  -- positive, and the cached ones where not, of which the quantity is the original one unless it is 0.
  abbrev cached : F
  cached = if eq p.original_qty nought then p.quantity else p.original_qty

  abbrev pub agreed : PositionReply F → Confirmed c x
  agreed (found live) = record {
    entry_price = if lt nought live.entry_price then live.entry_price else p.entry_price;
    qty = if lt nought live.quantity then live.quantity else cached;
  }
  agreed _ = record { entry_price = p.entry_price; qty = cached }

  -- The exchange has no such position: the cached one is removed, no other is, and nothing is sent
  -- or recorded.
  pub record Removes (w w' : World F) : Type 0 where
    pub gone :
        (s : String)
        → find_position s w'.active ≡ (if str_eq s p.symbol then none else find_position s w.active)
    pub calls : w'.calls ≡ get_position p.symbol ∷ w.calls
    pub trades : w'.trades ≡ w.trades
    pub protections : w'.protections ≡ w.protections

  -- The position is secured for what was confirmed: a stop and a take-profit were each sent once; the
  -- stored position has the confirmed price and quantity, the id of an accepted order and the id it
  -- had of a refused one; what was refused, and only that, is recorded as missing for the retry, at
  -- the same levels. The trade is inserted.
  pub record Secures (k : Confirmed c x) (w w' : World F) : Type 0 where
    pub sl : Option (OrderResult F)
    pub tp : Option (OrderResult F)
    pub sl_sent : sl ≡ x.place (get_position p.symbol ∷ w.calls) (stop_for k)
    pub tp_sent : tp ≡ x.place (stop_for k ∷ get_position p.symbol ∷ w.calls) (profit_for k)
    pub calls : w'.calls ≡ profit_for k ∷ stop_for k ∷ get_position p.symbol ∷ w.calls
    pub position : Position F
    pub stored :
        (s : String)
        → find_position s w'.active
          ≡ (if str_eq p.symbol s then some position else find_position s w.active)
    pub entry_price : position.entry_price ≡ k.entry_price
    pub size : (position.quantity ≡ k.qty) × (position.original_qty ≡ k.qty)
    pub levels : (position.stop_loss ≡ stop_price k) × (position.take_profit ≡ profit_price k)
    pub sl_id : (o : OrderResult F) → sl ≡ some o → position.sl_order_id ≡ o.client_order_id
    pub sl_kept : sl ≡ none → position.sl_order_id ≡ p.sl_order_id
    pub tp_id : (o : OrderResult F) → tp ≡ some o → position.tp_order_id ≡ o.client_order_id
    pub tp_kept : tp ≡ none → position.tp_order_id ≡ p.tp_order_id
    pub missing : w'.protections ≡ (
        if refused sl || refused tp
        then (record {
          symbol = p.symbol;
          needs_sl = refused sl;
          needs_tp = refused tp;
          entry_price = k.entry_price;
          quantity = k.qty;
          tp1_qty = k.qty;
          stop_loss = stop_price k;
          take_profit = profit_price k;
          retries = 0;
          last_attempt = none;
        })
          ∷ keep (λ q. not (str_eq q.symbol p.symbol)) w.protections
        else w.protections)
    pub trades : w'.trades ≡ recovered_trade c x p k ∷ w.trades

  protect_confirmed-Secures :
      (k : Confirmed c x) (w : World F)
      → Secures k w
          (protect_confirmed c x p k (record w { calls = get_position p.symbol ∷ w.calls }))
  unfolding protect_confirmed
  protect_confirmed-Secures k w =
      let v = record w { calls = profit_for k ∷ stop_for k ∷ get_position p.symbol ∷ w.calls } in
      let sl = x.place (get_position p.symbol ∷ w.calls) (stop_for k) in
      let tp = x.place (stop_for k ∷ get_position p.symbol ∷ w.calls) (profit_for k) in
      let h =
        set-OnlyProtections (refused sl || refused tp)
          (missing_of c x p k (refused sl) (refused tp)) v in
      record {
        sl = sl;
        tp = tp;
        sl_sent = refl;
        tp_sent = refl;
        calls = h.calls;
        position = protected_position c x p k sl tp;
        stored = λ s.
            find_position-store_position s (protected_position c x p k sl tp) _
            ∙ ap
                (λ l.
                  if str_eq p.symbol s
                  then some (protected_position c x p k sl tp)
                  else find_position s l)
                h.active;
        entry_price = refl;
        size = (refl, refl);
        levels = (refl, refl);
        sl_id = λ o e. ap (id_or p.sl_order_id) e;
        sl_kept = ap (id_or p.sl_order_id);
        tp_id = λ o e. ap (id_or p.tp_order_id) e;
        tp_kept = ap (id_or p.tp_order_id);
        missing = h.protections;
        trades = ap (◌∷◌ (recovered_trade c x p k)) h.trades;
      }

  remove-Removes :
      (w : World F)
      → Removes w (remove_position p.symbol (record w { calls = get_position p.symbol ∷ w.calls }))
  remove-Removes w = record {
    gone = λ s. find_position-drop_position s p.symbol w.active;
    calls = refl;
    trades = refl;
    protections = refl;
  }

  -- A position that the sweep repairs is removed if the exchange answers that it has no such
  -- position. Otherwise it is secured, for the entry price and the quantity of the exchange
  -- where those are positive and the cached ones where not: with the ids of the accepted orders
  -- stored, and exactly the refused ones recorded for the retry.
  pub emergency_protect_outcomes :
      (w : World F)
      → let reply = x.position w.calls p.symbol in
        let w' = emergency_protect c x p w in
        ((reply ≡ absent) × Removes w w') ⊎ ((reply ≢ absent) × Secures (agreed reply) w w')
  unfolding emergency_protect after_reply
  emergency_protect_outcomes w =
      elim (x.position w.calls p.symbol)
        as (λ r.
          ((r ≡ absent)
            × Removes w
                (after_reply c x p r (record w { calls = get_position p.symbol ∷ w.calls })))
          ⊎ ((r ≢ absent)
              × Secures (agreed r) w
                  (after_reply c x p r (record w { calls = get_position p.symbol ∷ w.calls })))) [
                    | unreachable ↦ inr (λ h. cc, protect_confirmed-Secures (agreed unreachable) w)
                    | absent ↦ inl (refl, remove-Removes w)
                    | found live ↦ inr (λ h. cc, protect_confirmed-Secures (agreed (found live)) w)
                  ]
