-- ===== src/Samples.antt =====
-- Concrete values for the examples: amounts, a candidate, an intent, a position, an exchange.
use Prim.Native.String.{String}
use binance_futures.Base.{ℕ, ◌*◌, true, false, Option, none, some, List, []}
use binance_futures.Base.Int.{ℤ, pos}
use binance_futures.Float64.Fixed.{fixed}
use binance_futures.Domain.{Side, OrderResult, EntryMode, ScoredCandidate, Position, PendingEntry}
use binance_futures.Intent.{TradeIntent, IntentStatus, Queue, no_counts}
use binance_futures.Execution.World.{Mode, Config, Exchange, World, PositionReply}

-- `n` with eight places.
abbrev pub coins : ℕ → ℤ
coins n = pos (n * 100_000_000)

abbrev pub candidate : String → ℕ → ScoredCandidate ℤ
candidate symbol score = record {
  candidate = record {
    symbol = symbol;
    funding_rate = pos 0;
    mark_price = coins 2;
    daily_roi = coins 20;
    roi_1d = coins 20;
    roi_4h = coins 5;
    roi_1h = coins 1;
    volume_24h = coins 1000;
    score = coins score;
  };
  indicators = none;
  btc_context = none;
  composite_score = coins score;
  breakdown = record {
    funding_score = pos 0;
    oi_score = pos 0;
    oi_15m_score = pos 0;
    btc_score = pos 0;
    candle_score = pos 0;
    volume_score = pos 0;
    roi_score = pos 0;
    volatility_score = pos 0;
    rsi_divergence_score = pos 0;
    bullish_candle_penalty = pos 0;
    momentum_penalty = pos 0;
  };
  confidence = "HIGH";
  position_size_pct = coins 5;
}

abbrev pub intent : ℕ → String → EntryMode → ℕ → TradeIntent ℤ
intent address symbol mode confidence = record {
  address = address;
  symbol = symbol;
  candidate = candidate symbol 80;
  decision = record {
    action = "SHORT";
    symbol = symbol;
    confidence = pos confidence;
    entry_mode = mode;
    entry_reasons = [];
    warnings = [];
    skip_reason = "";
  };
  target_entry_mode = mode;
  created_at = 0;
  expires_at = 1000;
  status = IntentStatus.pending;
}

abbrev pub queue_of : List (TradeIntent ℤ) → Queue ℤ
queue_of is = record {
  intents = is;
  frontrun_interval = pos 60;
  frontrun_fire_window = pos 600;
  last_frontrun_exec = none;
  fired_in_window = no_counts;
}

abbrev pub config : Config ℤ
config = record {
  mode = Mode.live;
  leverage = pos 20;
  max_positions = 3;
  max_daily_losses = 4;
  sl_pct = coins 5;
  tp_pct = coins 2;
  tp1_size_pct = coins 70;
  tp2_pct = coins 4;
  breakeven_activation_pct = coins 1;
  force_sl_enabled = true;
  force_sl_start_min = 5;
  force_sl_pnl_gate_pct = coins 1;
  force_sl_escalate_pnl_pct = coins 2;
  force_sl_slow_interval_sec = 60;
  force_sl_fast_interval_sec = 15;
  check_before_minutes = 5;
  widen_tp_on_miss = true;
  close_before_minutes = 1;
  grace_seconds = 5;
}

abbrev pub position : Position ℤ
position = record {
  symbol = "BTCUSDT";
  side = Side.sell;
  entry_price = coins 100;
  quantity = coins 10;
  original_qty = coins 10;
  leverage = pos 20;
  entry_mode = EntryMode.last_minute;
  mark_price = coins 100;
  stop_loss = coins 105;
  take_profit = coins 98;
  sl_order_id = "sl";
  tp_order_id = "tp";
  trade_id = 7;
  opened_at = 0;
  is_paper = false;
  breakeven_moved = false;
  tp1_filled = false;
  tp1_fill_price = pos 0;
  tp1_filled_at = none;
  trailing_order_id = "";
  trailing_sl_order_id = "";
  tp2_order_id = "tp2";
  tp2_price = coins 96;
  last_force_sl_check = none;
  force_sl_count = 0;
  llm_entry_reasons = [];
  original_confidence = pos 80;
  high_since_entry = coins 100;
  low_since_entry = coins 100;
  funding_rate_at_entry = pos 0;
  funding_fee_paid = true;
  funding_fee_paid_pct = pos 0;
  funding_fee_paid_amount = coins 1;
  settlement_passed_at = none;
  tp_widened = false;
  trailing_peak = pos 0;
}

abbrev pub filled : OrderResult ℤ
filled = record {
  order_id = "1";
  symbol = "BTCUSDT";
  side = Side.sell;
  fill_price = coins 100;
  quantity = coins 10;
  status = "FILLED";
  is_paper = false;
  timestamp = 5;
  client_order_id = "c1";
}

-- An exchange that accepts every order, or none.
abbrev pub exchange : Option (OrderResult ℤ) → Exchange ℤ
exchange answer = record {
  place = λ _ _. answer;
  cancel = λ _ _ _. true;
  position = λ _ _. PositionReply.absent;
  balance = λ _.
      some (record { asset = "USDT"; total_balance = coins 1000; available_balance = coins 900 });
  leverage_set = λ _ _. true;
  uuid_text = λ _. "uuid";
  entry_json = λ _. none;
  entry_of_json = λ _. none;
}

abbrev pub world : List (Position ℤ) → World ℤ
world ps = record {
  calls = [];
  active = ps;
  entries = [];
  protections = [];
  kill_switch = false;
  daily_losses = 1;
  cached_balance = none;
  cooldowns = [];
  trades = [];
  results = [];
  force_closes = [];
}

abbrev pub entry : PendingEntry ℤ
entry = record {
  trade_id = 9;
  order_id = "";
  symbol = "ETHUSDT";
  quantity = coins 10;
  position_size_pct = coins 5;
  confidence = pos 80;
  window = EntryMode.last_minute;
  tp_pct = coins 2;
  llm_decision = none;
  created_at = 0;
  expires_at = 70;
  funding_rate_at_entry = pos 0;
  funding_rate = pos 0;
  change_24h = coins 20;
  scored_candidate = none;
  indicator_snapshot = none;
  btc_context = none;
}
