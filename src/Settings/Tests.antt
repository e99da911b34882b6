-- ===== src/Settings/Tests.antt =====
-- Examples for the settings: those of an empty file.
use binance_futures.Base.{false}
use binance_futures.Base.Int.{ℤ, pos}
use binance_futures.Float64.Fixed.{fixed}
use binance_futures.Settings.{Config}
use binance_futures.Settings.Defaults.{set_defaults}
use binance_futures.Settings.Filled.{Filled, SwitchedOn, set_defaults-Filled}

abbrev empty : Config ℤ
empty = record {
  app = record { mode = ""; log_level = ""; paper_balance = pos 0; pprof_port = pos 0 };
  binance = record { api_key = ""; api_secret = ""; base_url = ""; ws_url = ""; testnet = false };
  trading = record {
    max_positions = pos 0;
    leverage = pos 0;
    position_size_pct = pos 0;
    cooldown_minutes = pos 0;
  };
  funding = record { min_rate = pos 0; max_rate = pos 0; top_candidates = 0 };
  execution = record {
    sl_pct = pos 0;
    tp_pct = pos 0;
    trailing_activation_pct = pos 0;
    breakeven_activation_pct = pos 0;
    slippage_bps = pos 0;
    trailing_callback_rate = pos 0;
    tp1_size_pct = pos 0;
    tp2_pct = pos 0;
    force_sl_enabled = false;
    force_sl_start_min = pos 0;
    force_sl_pnl_gate_pct = pos 0;
    force_sl_escalate_pnl_pct = pos 0;
    force_sl_slow_interval_sec = pos 0;
    force_sl_fast_interval_sec = pos 0;
    force_sl_timeout_sec = pos 0;
  };
  scheduler = record {
    scan_interval_early = "";
    scan_interval_late = "";
    scan_interval = "";
    window_start_minutes = 0;
  };
  websocket = record {
    ping_interval = "";
    stale_timeout = "";
    max_reconnect_failures = pos 0;
    reconnect_base_backoff = "";
    reconnect_max_backoff = "";
  };
  database = record {
    postgres = record {
      host = "";
      port = pos 0;
      user = "";
      password = "";
      dbname = "";
      sslmode = "";
      max_conns = pos 0;
    };
    redis = record { addr = ""; password = ""; db = pos 0 };
  };
  scoring = record { min_score = pos 0; min_score_override = pos 0 };
  risk = record {
    max_daily_losses = pos 0;
    max_drawdown_pct = pos 0;
    max_atr_ratio = pos 0;
    btc_breakout_reject = false;
  };
  llm = record {
    enabled = false;
    api_key = "";
    model = "";
    timeout_secs = pos 0;
    max_retries = pos 0;
    max_rpm = pos 0;
    top_candidates = pos 0;
    min_confidence = pos 0;
    frontrun_exec_interval_secs = pos 0;
    frontrun_fire_minutes = pos 0;
    call_cooldown_secs = pos 0;
  };
  memory = record {
    enabled = false;
    embedding_model = "";
    embedding_dimensions = pos 0;
    top_similar = pos 0;
    min_similarity = pos 0;
    embed_skips = false;
    max_memory_age = "";
    summarizer_model = "";
  };
  telegram = record { enabled = false; bot_token = ""; chat_id = ""; timeout_secs = pos 0 };
  summary = record { enabled = false };
  after_execution = record {
    enabled = false;
    subscribe_before_seconds = pos 0;
    min_bid_depth_multiplier = pos 0;
    full_size_depth_multiplier = pos 0;
    reduced_size_pct = pos 0;
    clock_sync_interval_seconds = pos 0;
    fallback_to_scheduler = false;
  };
  pre_settlement = record {
    enabled = false;
    check_before_minutes = pos 0;
    emergency_close_threshold = pos 0;
    widen_tp_on_miss = false;
  };
  funding_avoidance = record { enabled = false; close_before_minutes = pos 0 };
  order_book_filter = record {
    enabled = false;
    max_spread_bps = pos 0;
    depth_ratio_n = pos 0;
    depth_levels = pos 0;
  };
  protection_sweep = record { enabled = false; interval_seconds = pos 0; grace_seconds = pos 0 };
}

set_defaults-Filled_example : Filled (set_defaults empty) × SwitchedOn (set_defaults empty)
set_defaults-Filled_example = set_defaults-Filled empty
