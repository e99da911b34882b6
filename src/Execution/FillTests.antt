-- ===== src/Execution/FillTests.antt =====
-- Examples for the user stream, the paper fills, the emergency protection, the settlement and the
-- reconciliation.
use Prim.Native.String.{String}
use text.Mathlib.TextEquality.{eq_iff}
use binance_futures.Base.{
  ℕ, ◌≡◌, ◌≢◌, Option, ◌==◌, if◌then◌else◌, ◌⊎◌, inl, refl, arith, true, false, [], ◌∷◌, some,
}
use binance_futures.Base.Int.{ℤ, pos}
use binance_futures.Float64.Fixed.{fixed}
use binance_futures.Domain.{Position, FundingRate, ExitInfo, win}
use binance_futures.Samples.{coins, config, position, filled, exchange, world}
use binance_futures.Execution.World.{
  Exchange, World, found, absent, find_position, set_active_position,
}
use binance_futures.Execution.Close.{OrderTradeUpdate}
use binance_futures.Execution.Fills.{handle_user_data_event, check_paper_fills}
use binance_futures.Execution.Fills.Events.{
  ClosesOnce, handle_user_data_event-frame, handle_user_data_event-ClosesOnce,
}
use binance_futures.Execution.Fills.Paper.{check_paper_fills_reopens}
use binance_futures.Execution.Protection.Sweep.{emergency_protect}
use binance_futures.Execution.Protection.Sweep.Repairs.{
  agreed, Removes, Secures, emergency_protect_outcomes,
}
use binance_futures.Execution.Entry.{stop_market_request, take_profit_request}
use binance_futures.Execution.Reconcile.{OpenOrder, verify_and_replace}
use binance_futures.Execution.Reconcile.Replacing.{verify_and_replace_duplicates}
use binance_futures.Execution.Settlement.{check_settlement_passed}
use binance_futures.Execution.Settlement.Fees.{check_settlement_passed_once}

abbrev accepting : Exchange ℤ
accepting = exchange (some filled)

abbrev tp2_fill : OrderTradeUpdate ℤ
tp2_fill = record {
  symbol = "BTCUSDT";
  client_order_id = "tp2";
  order_status = "FILLED";
  is_market_sell = false;
  avg_price = coins 96;
  filled_qty = coins 3;
  reduce_only = true;
  trade_time = 50;
}

abbrev other_position : Position ℤ
other_position = record position { symbol = "ETHUSDT" }

handle_user_data_event-frame_example :
    find_position "ETHUSDT"
      (handle_user_data_event config accepting 50 tp2_fill
        (world (position ∷ other_position ∷ []))).active
    ≡ some other_position
handle_user_data_event-frame_example =
    handle_user_data_event-frame config accepting 50 tp2_fill
      (world (position ∷ other_position ∷ [])) (λ e h. absurd (ground (arith, h))) "ETHUSDT" refl

handle_user_data_event-ClosesOnce_example :
    ClosesOnce config accepting 50 position tp2_fill
      (world (position ∷ []))
      (handle_user_data_event config accepting 50 tp2_fill (world (position ∷ [])))
handle_user_data_event-ClosesOnce_example =
    handle_user_data_event-ClosesOnce config accepting 50 tp2_fill (world (position ∷ [])) position
      refl refl refl (λ h. ground (arith, eq_iff "tp2" "tp", h))
      (λ h. ground (arith, eq_iff "tp2" "", h)) (inl refl)

-- A paper position whose TP2 order has no identifier.
abbrev paper_position : Position ℤ
paper_position = record position { tp2_order_id = ""; is_paper = true }

check_paper_fills_reopens_example :
    let (closed, q, w) =
      check_paper_fills config accepting 50 paper_position
        (coins 97)
        (world (paper_position ∷ [])) in
    (closed ≡ false)
    × (find_position "BTCUSDT" w.active ≡ some q)
    × ((exit : ExitInfo ℤ) × (w.results ≡ (7, exit) ∷ []) × (exit.result ≡ win))
check_paper_fills_reopens_example =
    check_paper_fills_reopens config accepting 50 paper_position (coins 97)
      (world (paper_position ∷ [])) refl refl refl refl (λ h. ground (arith, h))

-- An exchange that still has the position.
abbrev holding : Exchange ℤ
holding = record accepting { position = λ _ _. found position }

emergency_protect_outcomes_example :
    let w = world (position ∷ []) in
    let w' = emergency_protect config holding position w in
    ((found position ≡ absent) × Removes config holding position w w')
    ⊎ ((found position ≢ absent)
        × Secures config holding position (agreed config holding position (found position)) w w')
emergency_protect_outcomes_example =
    emergency_protect_outcomes config holding position (world (position ∷ []))

abbrev unsettled : Position ℤ
unsettled = record position { funding_fee_paid = false; funding_rate_at_entry = pos 100_000 }

-- The next settlement is an hour and a half ahead.
abbrev far_ahead : FundingRate ℤ
far_ahead = record {
  symbol = "BTCUSDT";
  rate = pos 0;
  next_funding = some 5_400_000_000_000;
  mark_price = coins 100;
  updated_at = 0;
}

check_settlement_passed_once_example :
    (q : Position ℤ) × (find_position "BTCUSDT"
        (check_settlement_passed config accepting 50
          (some far_ahead)
          unsettled
          (world (unsettled ∷ []))).active
      ≡ some q)
    × (q.funding_fee_paid_amount ≡ coins 1)
    × ((later : ℕ) (info : Option (FundingRate ℤ)) (v : World ℤ)
        → check_settlement_passed config accepting later info q v ≡ v)
check_settlement_passed_once_example =
    check_settlement_passed_once config accepting 50 (some far_ahead) unsettled
      (world (unsettled ∷ [])) refl refl refl refl

-- The cached stop of the position is an order of the exchange, under another name.
abbrev live_order : OpenOrder ℤ
live_order = record {
  symbol = "BTCUSDT";
  order_id = 1;
  side = "BUY";
  type = "STOP_MARKET";
  stop_price = coins 105;
  price = pos 0;
  orig_qty = coins 10;
  status = "NEW";
  reduce_only = true;
  client_order_id = "sl";
}

abbrev order_text : ℕ → String
order_text n = if n == 1 then "1" else "other"

verify_and_replace_duplicates_example :
    verify_and_replace order_text accepting (live_order ∷ []) position (world (position ∷ []))
    ≡ set_active_position
        (record position { sl_order_id = "c1"; tp_order_id = "c1" })
        (record (world (position ∷ [])) {
          calls =
              take_profit_request "BTCUSDT" (coins 10) (coins 98)
              ∷ stop_market_request "BTCUSDT" (coins 105)
              ∷ [];
        })
verify_and_replace_duplicates_example =
    verify_and_replace_duplicates order_text accepting (live_order ∷ []) position
      (world (position ∷ [])) filled filled (refl, tt) (refl, tt) refl refl
