-- ===== src/Execution/Fills/Paper.antt =====
-- The simulated fills of paper positions.
use Prim.Native.String.{String}
use text.Mathlib.TextEquality.{eq_iff}
use binance_futures.Base.{ℕ, ◌≡◌, ◌≢◌, ◌∙◌, ap, refl, true, false, some, ◌∷◌, arith}
use binance_futures.Float64.{Float64}
use binance_futures.Domain.{Position, ExitInfo, win}
use binance_futures.Execution.World.{
  Config, Exchange, World, set_active_position, find_position, cancel_known,
}
use binance_futures.Execution.Store.{find_position-store_position}
use binance_futures.Execution.Close.{OrderTradeUpdate, handle_tp2_fill}
use binance_futures.Execution.Close.Outcomes.{handle_tp2_fill-Closes}
use binance_futures.Execution.Fills.{
  after_tp1, handle_tp1_fill, check_paper_fills, fake_order, tp1_size_fraction,
}

module _ {F : Type 0} ⦃f : Float64 F⦄ (c : Config F) (x : Exchange F) (now : ℕ) where
  open f use {le, mul}

  abbrev tp1_order : Position F → OrderTradeUpdate F
  tp1_order p = fake_order c x now p p.take_profit (mul p.original_qty (tp1_size_fraction c x now))

  paper_tp1 :
      (p : Position F) (price : F) (w : World F)
      → p.tp1_filled ≡ false
      → le p.stop_loss price ≡ false
      → le price p.take_profit ≡ true
      → let (q, w') = handle_tp1_fill c x now p (tp1_order p) w in
        let r = record q { trailing_peak = q.take_profit } in
        check_paper_fills c x now p price w ≡ (false, r, set_active_position r w')
  unfolding check_paper_fills
  paper_tp1 p price w a d e = ground (arith, a, d, e)

  tp1_last :
      (p : Position F) (o : OrderTradeUpdate F) (w : World F)
      → p.tp2_order_id ≡ ""
      → let p' = after_tp1 c x now p o in
        handle_tp1_fill c x now p o w
        ≡ (p', handle_tp2_fill c x now p' o (cancel_known x p.symbol p.sl_order_id w))
  unfolding handle_tp1_fill
  tp1_last p o w b = ground (arith, b, eq_iff p.tp2_order_id "")

  cancel_known-results : (s id : String) (w : World F) → (cancel_known x s id w).results ≡ w.results
  cancel_known-results s id w = ground arith

  stored :
      (p : Position F) (w : World F)
      → find_position p.symbol (set_active_position p w).active ≡ some p
  stored p w =
      ground (arith, find_position-store_position p.symbol p w.active, eq_iff p.symbol p.symbol)

  -- If TP1 of a paper position fills and the position has no id for TP2, as with the paper
  -- executor, which gives none, then its trade is recorded as won and closed, the caller is told
  -- that the position is open, and the position is in the cache again.
  pub check_paper_fills_reopens :
      (p : Position F) (price : F) (w : World F)
      → p.tp1_filled ≡ false
      → p.tp2_order_id ≡ ""
      → le p.stop_loss price ≡ false
      → le price p.take_profit ≡ true
      → p.trade_id ≢ 0
      → let (closed, q, w') = check_paper_fills c x now p price w in
        (closed ≡ false)
        × (find_position p.symbol w'.active ≡ some q)
        × ((exit : ExitInfo F) × (w'.results ≡ (p.trade_id, exit) ∷ w.results)
            × (exit.result ≡ win))
  check_paper_fills_reopens p price w a b d e t =
      let o = tp1_order p in
      let v = cancel_known x p.symbol p.sl_order_id w in
      let p' = after_tp1 c x now p o in
      let h = handle_tp2_fill-Closes c x now p' o v in
      let (exit, recorded, won, _, _) = h.recorded t in
      let r = record p' { trailing_peak = p.take_profit } in
      rw (paper_tp1 p price w a d e, tp1_last p o w b)
        (
          refl,
          stored r (handle_tp2_fill c x now p' o v),
          (
            exit,
            recorded
                ∙ ap (λ l. (p.trade_id, exit) ∷ l) (cancel_known-results p.symbol p.sl_order_id w),
            won,
          ),
        )
