-- ===== src/Execution/Tests.antt =====
-- Examples for the execution layer: a short of 10 at 100, and an exchange that accepts or refuses.
use text.Mathlib.Text.{◌==◌ as str_eq}
use binance_futures.Base.{
  ℕ, ◌≡◌, ◌≢◌, ◌⊎◌, ◌≤◌, refl, arith, true, false, any, length, [], ◌∷◌, Option, some, none,
}
use binance_futures.Base.Int.{ℤ, pos}
use binance_futures.Float64.Fixed.{fixed}
use binance_futures.Domain.{
  Position, EntryMode, Balance, OrderResult, PendingProtection, win, tp_trail,
}
use binance_futures.Samples.{coins, candidate, config, position, filled, exchange, world, entry}
use binance_futures.Execution.World.{Exchange, cancel_order}
use binance_futures.Execution.Close.{OrderTradeUpdate, handle_trailing_sl_fill}
use binance_futures.Execution.Close.Outcomes.{Closes, handle_trailing_sl_fill-Closes}
use binance_futures.Execution.Entry.{finalize_sltp}
use binance_futures.Execution.Entry.Outcomes.{
  Activates, Postpones, stop_call, profit_call, finalize_sltp_outcomes,
}
use binance_futures.Execution.Protection.{retry_protection, close_request}
use binance_futures.Execution.Protection.Retries.{
  Attempts, retry_protection-Attempts, retry_protection_exhausted,
}
use binance_futures.Execution.Engine.{Order, execute, fund_entry, place_entry, read_balance, margin}
use binance_futures.Execution.Engine.Guards.{execute_placed}

abbrev accepting : Exchange ℤ
accepting = exchange (some filled)

abbrev refusing : Exchange ℤ
refusing = exchange none

abbrev fill : OrderTradeUpdate ℤ
fill = record {
  symbol = "BTCUSDT";
  client_order_id = "tp2";
  order_status = "FILLED";
  is_market_sell = false;
  avg_price = coins 96;
  filled_qty = coins 3;
  reduce_only = true;
  trade_time = 50;
}

-- A position that paid a funding fee of 1.
abbrev charged : Position ℤ
charged = record position { funding_fee_paid = true; funding_fee_paid_amount = coins 1 }

handle_trailing_sl_fill_example :
    let w' = handle_trailing_sl_fill config accepting 50 charged fill (world (charged ∷ [])) in
    Closes charged win tp_trail (coins 38) (world (charged ∷ [])) w' × (w'.daily_losses ≡ 1)
handle_trailing_sl_fill_example =
    handle_trailing_sl_fill-Closes config accepting 50 charged fill (world (charged ∷ []))

finalize_sltp_example :
    let w' = finalize_sltp config refusing entry (coins 100) (coins 10) 60 (world []) in
    Activates config refusing entry (coins 100) (coins 10) 60 (world []) w'
    ⊎ (Postpones config refusing entry (coins 100) (coins 10) 60 (world []) w'
        × ((stop : OrderResult ℤ)
            → ◌≡◌ {A = Option (OrderResult ℤ)} none (some stop)
            → w'.calls
              ≡ cancel_order "ETHUSDT" stop.client_order_id
                ∷ profit_call config refusing entry (coins 100) (coins 10) 60
                ∷ stop_call config refusing entry (coins 100) (coins 10) 60
                ∷ []))
finalize_sltp_example =
    finalize_sltp_outcomes config refusing entry (coins 100) (coins 10) 60 (world [])

abbrev missing : ℕ → PendingProtection ℤ
missing retries = record {
  symbol = "BTCUSDT";
  needs_sl = true;
  needs_tp = true;
  entry_price = coins 100;
  quantity = coins 10;
  tp1_qty = coins 7;
  stop_loss = coins 105;
  take_profit = coins 98;
  retries = retries;
  last_attempt = none;
}

retry_protection_example :
    Attempts config refusing 70 "fclose-1" position
      (missing 0)
      (world (position ∷ []))
      (retry_protection config refusing 70 "fclose-1" position (missing 0) (world (position ∷ [])))
retry_protection_example =
    retry_protection-Attempts config refusing 70 "fclose-1" position (missing 0)
      (world (position ∷ [])) refl (omega arith)

retry_protection_exhausted_example :
    let w' =
      retry_protection config accepting 70 "fclose-1" position
        (missing 5)
        (world (position ∷ [])) in
    (w'.protections ≡ [])
    × (w'.active ≡ position ∷ [])
    × (some filled ≡ none → w'.calls ≡ close_request position "fclose-1" ∷ [])
    × ((o : OrderResult ℤ)
        → some filled ≡ some o
        → w'.calls
          ≡ cancel_order "BTCUSDT" "tp2"
            ∷ cancel_order "BTCUSDT" "tp"
            ∷ cancel_order "BTCUSDT" "sl"
            ∷ close_request position "fclose-1"
            ∷ [])
retry_protection_exhausted_example =
    retry_protection_exhausted config accepting 70 "fclose-1" position (missing 5)
      (world (position ∷ [])) refl (omega arith)

abbrev order : Order ℤ
order = record {
  scored = candidate "ETHUSDT" 80;
  entry_mode = EntryMode.last_minute;
  position_size_pct = coins 5;
  confidence = pos 80;
  llm_decision = none;
  now = 0;
  trade_id = 9;
  funding_rate = pos 0;
  price = coins 2;
  finalized_at = 1;
}

execute_placed_example :
    let w = world (position ∷ []) in
    (w.kill_switch ≡ false)
    × (length w.active ≤ 3)
    × (any (λ p. str_eq p.symbol "ETHUSDT") w.active ≡ false)
    × (w.daily_losses ≤ 4)
    × ((read_balance config accepting w).0 ≢ none)
    × ((b : Balance ℤ)
        → (read_balance config accepting w).0 ≡ some b
        → fixed.lt b.available_balance (margin config accepting b (candidate "ETHUSDT" 80)) ≡ false)
unfolding execute fund_entry place_entry
execute_placed_example = execute_placed config accepting order (world (position ∷ [])) refl
