-- ===== src/Execution/Fills/Events.antt =====
-- What an order event changes, and that a fill closes a position once.
use Prim.Native.String.{String}
use text.Mathlib.Text.{◌==◌ as str_eq}
use text.Mathlib.TextEquality.{eq_iff}
use binance_futures.Base.{
  ℕ, ◌≡◌, ◌≢◌, ◌⊎◌, inl, inr, refl, true, false, not, Option, none, some, List, [], ◌∷◌, arith,
  if◌then◌else◌, Bool-cases, Option-cases,
}
use binance_futures.Float64.{Float64, nought}
use binance_futures.Domain.{Position, PendingEntry, TradeResult, CloseReason}
use binance_futures.Execution.World.{
  Config, Exchange, World, store_position, find_position, get_pending_entry, get_active_position,
  cancel_known,
}
use binance_futures.Execution.Store.{find_position-store_position}
use binance_futures.Execution.Entry.{finalize_sltp}
use mathlib.Core.Path.{subst}
use binance_futures.Execution.Close.{OrderTradeUpdate, confirm_force_close, record_manual_close}
use binance_futures.Execution.Close.Outcomes.{
  Closes, handle_tp2_fill-Closes, handle_trailing_sl_fill-Closes, handle_hard_sl_fill-Closes,
  record_manual_close-Closes, confirm_force_close-Closes,
}
use binance_futures.Execution.Entry.Outcomes.{finalize_sltp_outcomes}
use binance_futures.Execution.Protection.{forget_force_close}
use binance_futures.Execution.Fills.{
  find_force_close, is_forced, after_tp1, protect_rest, handle_tp1_fill, handle_other_fill,
  handle_fill, handle_entry_fill, handle_position_fill, handle_user_data_event, entry_time,
}

module _ {F : Type 0} where
  find_position-symbol :
      (s : String) (ps : List (Position F)) (p : Position F)
      → find_position s ps ≡ some p
      → p.symbol ≡ s
  find_position-symbol s [] p h = ground arith
  find_position-symbol s (q ∷ qs) p h =
      ground (arith, find_position-symbol s qs p, eq_iff q.symbol s)

module _ {F : Type 0} ⦃f : Float64 F⦄ (c : Config F) (x : Exchange F) (now : ℕ) where
  open f use {eq}

  -- No other symbol's position is touched.
  Frame : String → World F → World F → Type 0
  Frame t w w' =
      (s : String) → str_eq s t ≡ false → find_position s w'.active ≡ find_position s w.active

  Closes-Frame :
      (p : Position F) (r : TradeResult) (a : CloseReason) (pnl : F) (w w' : World F)
      → Closes p r a pnl w w'
      → Frame p.symbol w w'
  unfolding Frame
  Closes-Frame p r a pnl w w' h s e = ground (arith, h.gone s, e)

  cancel_known-active : (s id : String) (w : World F) → (cancel_known x s id w).active ≡ w.active
  cancel_known-active s id w = ground arith

  protect_rest-active :
      (p : Position F) (o : OrderTradeUpdate F) (w : World F)
      → (q : Position F) × (q.symbol ≡ p.symbol)
        × ((protect_rest c x now p o w).1.active ≡ store_position q w.active)
  unfolding protect_rest
  protect_rest-active p o w = ((protect_rest c x now p o w).0, ground arith, refl)

  protect_rest-Frame :
      (p : Position F) (o : OrderTradeUpdate F) (w : World F)
      → Frame p.symbol w (protect_rest c x now p o w).1
  unfolding Frame
  protect_rest-Frame p o w s e =
      let (q, t, a) = protect_rest-active p o w in
      rw a (
        ground (
          arith,
          e,
          t,
          find_position-store_position s q w.active,
          eq_iff q.symbol s,
          eq_iff s p.symbol,
        ))

  Frame-after : (t : String) (w v w' : World F) → v.active ≡ w.active → Frame t v w' → Frame t w w'
  unfolding Frame
  Frame-after t w v w' a h s e = rw a at h s e

  handle_tp1_fill-Frame :
      (p : Position F) (o : OrderTradeUpdate F) (w : World F)
      → Frame p.symbol w (handle_tp1_fill c x now p o w).1
  unfolding handle_tp1_fill
  handle_tp1_fill-Frame p o w =
      let v = cancel_known x p.symbol p.sl_order_id w in
      elim (Bool-cases (str_eq p.tp2_order_id "")) [
        | inl y ↦
            rw (handle_tp1_fill, y)
              (Frame-after p.symbol w v _ (cancel_known-active p.symbol p.sl_order_id w) (
                Closes-Frame (after_tp1 c x now p o) _ _ _ v _
                  (handle_tp2_fill-Closes c x now (after_tp1 c x now p o) o v)))
        | inr n ↦
            rw (handle_tp1_fill, n)
              (Frame-after p.symbol w v _ (cancel_known-active p.symbol p.sl_order_id w)
                (protect_rest-Frame p o v))
      ]

  Frame-refl : (t : String) (w : World F) → Frame t w w
  unfolding Frame
  Frame-refl t w s e = refl

  handle_other_fill-Frame :
      (p : Position F) (o : OrderTradeUpdate F) (w : World F)
      → Frame p.symbol w (handle_other_fill c x now p o w)
  handle_other_fill-Frame p o w =
      let v = forget_force_close c x o.symbol w in
      let forced = is_forced o.client_order_id (find_force_close o.symbol w.force_closes) in
      let by_hand = record_manual_close c x now p o.avg_price w in
      let kept : Frame p.symbol w (if forced then confirm_force_close c x now p o v else by_hand) =
        elim (Bool-cases forced) [
          | inl k ↦ rw k (
              Frame-after p.symbol w v _ refl
                (Closes-Frame p _ _ _ v _ (confirm_force_close-Closes c x now p o v)))
          | inr k ↦ rw k (Closes-Frame p _ _ _ w _ (record_manual_close-Closes c x now p o w))
        ] in
      elim o.reduce_only
        as (λ b.
          Frame p.symbol w
            (if not b then w else if forced then confirm_force_close c x now p o v else by_hand)) [
              | true ↦ kept
              | false ↦ Frame-refl p.symbol w
            ]

  handle_fill-Frame :
      (p : Position F) (o : OrderTradeUpdate F) (w : World F)
      → Frame p.symbol w (handle_fill c x now p o w)
  unfolding handle_fill
  handle_fill-Frame p o w = elim (Bool-cases (str_eq o.client_order_id p.tp_order_id)) [
    | inl a ↦
        rw a
          (elim p.tp1_filled
            as (λ b. Frame p.symbol w (if b then w else (handle_tp1_fill c x now p o w).1)) [
              | true ↦ Frame-refl p.symbol w
              | false ↦ handle_tp1_fill-Frame p o w
            ])
    | inr a ↦ elim (Bool-cases (str_eq o.client_order_id p.tp2_order_id)) [
      | inl b ↦ rw (a, b) (Closes-Frame p _ _ _ w _ (handle_tp2_fill-Closes c x now p o w))
      | inr b ↦ elim (Bool-cases (str_eq o.client_order_id p.trailing_order_id)) [
        | inl d ↦ rw (a, b, d) (Frame-refl p.symbol w)
        | inr d ↦ elim (Bool-cases (str_eq o.client_order_id p.trailing_sl_order_id)) [
          | inl e ↦
              rw (a, b, d, e)
                (Closes-Frame p _ _ _ w _ (handle_trailing_sl_fill-Closes c x now p o w).0)
          | inr e ↦ elim (Bool-cases (str_eq o.client_order_id p.sl_order_id)) [
            | inl g ↦
                rw (a, b, d, e, g)
                  (Closes-Frame p _ _ _ w _ (handle_hard_sl_fill-Closes c x now p o w).0)
            | inr g ↦ rw (a, b, d, e, g) (handle_other_fill-Frame p o w)
          ]
        ]
      ]
    ]
  ]

  finalize-Frame :
      (pending : PendingEntry F) (avg filled : F) (at : ℕ) (w : World F)
      → Frame pending.symbol w (finalize_sltp c x pending avg filled at w)
  unfolding Frame
  finalize-Frame pending avg filled at w s e =
      elim (finalize_sltp_outcomes c x pending avg filled at w) [
        | inl h ↦ ground (arith, h.stored s, e, eq_iff pending.symbol s, eq_iff s pending.symbol)
        | inr h ↦ rw h.0.active refl
      ]

  handle_entry_fill-Frame :
      (t : String) (pending : Option (PendingEntry F)) (o : OrderTradeUpdate F) (w : World F)
      → ((e : PendingEntry F) → pending ≡ some e → e.symbol ≡ t)
      → Frame t w (handle_entry_fill c x now pending o w)
  unfolding handle_entry_fill
  handle_entry_fill-Frame t none o w h = Frame-refl t w
  handle_entry_fill-Frame t (some e) o w h = elim (Bool-cases (eq o.avg_price nought)) [
    | inl y ↦ rw y (Frame-refl t w)
    | inr n ↦ rw n (
        subst
          (λ u. Frame u w (finalize_sltp c x e o.avg_price o.filled_qty (entry_time c x now o) w))
          (h e refl) (finalize-Frame e o.avg_price o.filled_qty (entry_time c x now o) w))
  ]

  -- An order event changes the position of its own symbol only, if the pending entry with the
  -- order's id, where there is one, is for that symbol.
  pub handle_user_data_event-frame :
      (o : OrderTradeUpdate F) (w : World F)
      → ((e : PendingEntry F)
          → get_pending_entry x now o.client_order_id w ≡ some e
          → e.symbol ≡ o.symbol)
      → (s : String) → str_eq s o.symbol ≡ false
      → find_position s (handle_user_data_event c x now o w).active ≡ find_position s w.active
  unfolding Frame handle_user_data_event
  handle_user_data_event-frame o w h s n =
      let entered = handle_entry_fill c x now (get_pending_entry x now o.client_order_id w) o w in
      let filled = handle_position_fill c x now (get_active_position o.symbol w) o w in
      elim (Bool-cases (str_eq o.order_status "FILLED")) [
        | inr a ↦ rw a refl
        | inl a ↦
            rw a
              (elim o.is_market_sell
                as (λ b.
                  find_position s (if b then entered else filled).active
                  ≡ find_position s w.active) [
                    | true ↦
                        handle_entry_fill-Frame o.symbol
                          (get_pending_entry x now o.client_order_id w) o w h s n
                    | false ↦ elim (Option-cases (get_active_position o.symbol w)) [
                      | inl e ↦ rw e refl
                      | inr (p, e) ↦ rw e (
                          handle_fill-Frame p o w s
                            (rw (find_position-symbol o.symbol w.active p e) n))
                    ]
                  ])
      ]

  event-gone :
      (o : OrderTradeUpdate F) (w : World F)
      → o.is_market_sell ≡ false
      → find_position o.symbol w.active ≡ none
      → handle_user_data_event c x now o w ≡ w
  unfolding handle_user_data_event
  event-gone o w m e = ground (arith, m, e)

  event-filled :
      (o : OrderTradeUpdate F) (w : World F) (p : Position F)
      → o.is_market_sell ≡ false
      → o.order_status ≡ "FILLED"
      → find_position o.symbol w.active ≡ some p
      → handle_user_data_event c x now o w ≡ handle_fill c x now p o w
  unfolding handle_user_data_event
  event-filled o w p m e g = ground (arith, m, e, g, eq_iff o.order_status "FILLED")

  -- `w'` is `w` with the position closed, and it stays as it is when the event comes again.
  pub record ClosesOnce (p : Position F) (o : OrderTradeUpdate F) (w w' : World F) : Type 0 where
    pub result : TradeResult
    pub reason : CloseReason
    pub pnl : F
    pub closes : Closes p result reason pnl w w'
    pub again : handle_user_data_event c x now o w' ≡ w'

  Closes-once :
      (p : Position F) (o : OrderTradeUpdate F) (result : TradeResult) (reason : CloseReason)
      (pnl : F) (w w' : World F)
      → o.is_market_sell ≡ false
      → p.symbol ≡ o.symbol
      → Closes p result reason pnl w w'
      → ClosesOnce p o w w'
  Closes-once p o result reason pnl w w' m t h = record {
    result = result;
    reason = reason;
    pnl = pnl;
    closes = h;
    again = event-gone o w' m (ground (arith, h.gone o.symbol, t, eq_iff o.symbol p.symbol));
  }

  -- A filled order event with the id of TP2, of the breakeven stop or of the stop, which is not
  -- that of TP1 or of the trailing order, closes the position of its symbol: it is gone, its trade's
  -- result is recorded, and when the same event comes again nothing changes.
  pub handle_user_data_event-ClosesOnce :
      (o : OrderTradeUpdate F) (w : World F) (p : Position F)
      → o.is_market_sell ≡ false
      → o.order_status ≡ "FILLED"
      → get_active_position o.symbol w ≡ some p
      → o.client_order_id ≢ p.tp_order_id
      → o.client_order_id ≢ p.trailing_order_id
      → (o.client_order_id ≡ p.tp2_order_id)
        ⊎ (o.client_order_id ≡ p.trailing_sl_order_id)
        ⊎ (o.client_order_id ≡ p.sl_order_id)
      → ClosesOnce p o w (handle_user_data_event c x now o w)
  unfolding handle_fill
  handle_user_data_event-ClosesOnce o w p m e g tp trailing which =
      let id = o.client_order_id in
      let t = find_position-symbol o.symbol w.active p g in
      let a : str_eq id p.tp_order_id ≡ false = ground (arith, eq_iff id p.tp_order_id, tp) in
      let d : str_eq id p.trailing_order_id ≡ false =
        ground (arith, eq_iff id p.trailing_order_id, trailing) in
      rw (event-filled o w p m e g) (elim (Bool-cases (str_eq id p.tp2_order_id)) [
        | inl b ↦ rw (a, b) (Closes-once p o _ _ _ w _ m t (handle_tp2_fill-Closes c x now p o w))
        | inr b ↦ elim (Bool-cases (str_eq id p.trailing_sl_order_id)) [
          | inl k ↦
              rw (a, b, d, k)
                (Closes-once p o _ _ _ w _ m t (handle_trailing_sl_fill-Closes c x now p o w).0)
          | inr k ↦
              let l : str_eq id p.sl_order_id ≡ true = ground (
                arith,
                eq_iff id p.tp2_order_id,
                eq_iff id p.trailing_sl_order_id,
                eq_iff id p.sl_order_id,
                which,
              ) in
              rw (a, b, d, k, l)
                (Closes-once p o _ _ _ w _ m t (handle_hard_sl_fill-Closes c x now p o w).0)
        ]
      ])
