-- ===== src/Settings/Defaults.antt =====
-- `Load` and `setDefaults` of internal/config/config.go, one definition for each group of settings.
use Prim.Native.String.{String}
use text.Mathlib.Text.{◌==◌ as str_eq}
use binance_futures.Base.{ℕ, Bool, true, false, not, Option, none, some, ◌==◌, if◌then◌else◌}
use binance_futures.Base.Int.{ℤ, pos, negsuc}
use binance_futures.Float64.{Float64, nought}
use binance_futures.Scanner.{FundingConfig}
use binance_futures.Scheduler.Tick.{SchedulerConfig}
use binance_futures.Settings.{
  AfterExecConfig, AppConfig, BinanceConfig, Config, DatabaseConfig, ExecutionConfig,
  FundingAvoidanceConfig, LlmConfig, MemoryConfig, OrderBookFilterConfig, PostgresConfig,
  PreSettlementConfig, ProtectionSweepConfig, RedisConfig, RiskConfig, ScoringConfig, SummaryConfig,
  TelegramConfig, TradingConfig, WebSocketConfig,
}

abbrev pub is_zero : ℤ → Bool
is_zero (pos n) = n == 0
is_zero (negsuc _) = false

-- `if x == "" { x = value }`, and the same of other types.
unfoldable pub text_or : String → String → String
text_or value x = if str_eq x "" then value else x

unfoldable pub int_or : ℤ → ℤ → ℤ
int_or value x = if is_zero x then value else x

unfoldable pub count_or : ℕ → ℕ → ℕ
count_or value x = if x == 0 then value else x

-- `if !x { x = true }`
unfoldable pub on_unless : Bool → Bool
on_unless x = if not x then true else x

unfoldable pub set_binance : BinanceConfig → BinanceConfig
set_binance c = record c {
  base_url = text_or "https://fapi.binance.com" c.base_url;
  ws_url = text_or "wss://fstream.binance.com" c.ws_url;
}

unfoldable pub set_scheduler : SchedulerConfig → SchedulerConfig
set_scheduler c = record c {
  scan_interval_early = text_or "5m" c.scan_interval_early;
  scan_interval_late = text_or "1m" c.scan_interval_late;
  window_start_minutes = count_or 30 c.window_start_minutes;
}

unfoldable pub set_llm : LlmConfig → LlmConfig
set_llm c = record c {
  frontrun_fire_minutes = int_or (pos 20) c.frontrun_fire_minutes;
  model = text_or "gpt-5.4-mini" c.model;
  timeout_secs = int_or (pos 45) c.timeout_secs;
  max_retries = int_or (pos 1) c.max_retries;
  max_rpm = int_or (pos 30) c.max_rpm;
  top_candidates = int_or (pos 3) c.top_candidates;
  min_confidence = int_or (pos 60) c.min_confidence;
  frontrun_exec_interval_secs = int_or (pos 300) c.frontrun_exec_interval_secs;
  call_cooldown_secs = int_or (pos 180) c.call_cooldown_secs;
}

unfoldable pub set_websocket : WebSocketConfig → WebSocketConfig
set_websocket c = record c {
  ping_interval = text_or "2m" c.ping_interval;
  stale_timeout = text_or "30s" c.stale_timeout;
  max_reconnect_failures = int_or (pos 5) c.max_reconnect_failures;
  reconnect_base_backoff = text_or "1s" c.reconnect_base_backoff;
  reconnect_max_backoff = text_or "30s" c.reconnect_max_backoff;
}

unfoldable pub set_postgres : PostgresConfig → PostgresConfig
set_postgres c = record c {
  host = text_or "localhost" c.host;
  port = int_or (pos 5432) c.port;
  sslmode = text_or "disable" c.sslmode;
  max_conns = int_or (pos 10) c.max_conns;
}

unfoldable pub set_redis : RedisConfig → RedisConfig
set_redis c = record c { addr = text_or "localhost:6379" c.addr }

unfoldable pub set_funding_avoidance : FundingAvoidanceConfig → FundingAvoidanceConfig
set_funding_avoidance c = record c {
  close_before_minutes = int_or (pos 6) c.close_before_minutes;
  enabled = on_unless c.enabled;
}

unfoldable pub set_protection_sweep : ProtectionSweepConfig → ProtectionSweepConfig
set_protection_sweep c = record c {
  interval_seconds = int_or (pos 7) c.interval_seconds;
  grace_seconds = int_or (pos 5) c.grace_seconds;
  enabled = on_unless c.enabled;
}

unfoldable pub set_telegram : TelegramConfig → TelegramConfig
set_telegram c = record c { timeout_secs = int_or (pos 10) c.timeout_secs }

unfoldable pub set_summary : SummaryConfig → SummaryConfig
set_summary c = record c { enabled = on_unless c.enabled }

unfoldable pub set_database : DatabaseConfig → DatabaseConfig
set_database c = record c { postgres = set_postgres c.postgres; redis = set_redis c.redis }

module _ {F : Type 0} ⦃f : Float64 F⦄ where
  open f use {lit, eq}

  unfoldable pub amount_or : F → F → F
  amount_or value x = if eq x nought then value else x

  unfoldable pub set_app : AppConfig F → AppConfig F
  set_app c = record c {
    mode = text_or "paper" c.mode;
    log_level = text_or "info" c.log_level;
    paper_balance = amount_or (lit (pos 1000) 0) c.paper_balance;
  }

  unfoldable pub set_trading : TradingConfig F → TradingConfig F
  set_trading c = record c {
    max_positions = int_or (pos 2) c.max_positions;
    leverage = int_or (pos 10) c.leverage;
    position_size_pct = amount_or (lit (pos 3) 0) c.position_size_pct;
    cooldown_minutes = int_or (pos 15) c.cooldown_minutes;
  }

  unfoldable pub set_funding : FundingConfig F → FundingConfig F
  set_funding c = record c {
    min_rate = amount_or (lit (negsuc 21) 3) c.min_rate;
    max_rate = amount_or (lit (negsuc 1) 3) c.max_rate;
    top_candidates = count_or 10 c.top_candidates;
  }

  unfoldable pub set_execution : ExecutionConfig F → ExecutionConfig F
  set_execution c = record c {
    sl_pct = amount_or (lit (pos 5) 0) c.sl_pct;
    tp_pct = amount_or (lit (pos 2) 0) c.tp_pct;
    breakeven_activation_pct = amount_or (lit (pos 2) 0) c.breakeven_activation_pct;
    slippage_bps = int_or (pos 1) c.slippage_bps;
    trailing_callback_rate = amount_or (lit (pos 105) 2) c.trailing_callback_rate;
    tp1_size_pct = amount_or (lit (pos 50) 0) c.tp1_size_pct;
    tp2_pct = amount_or (lit (pos 4) 0) c.tp2_pct;
    force_sl_start_min = int_or (pos 5) c.force_sl_start_min;
    force_sl_pnl_gate_pct = amount_or (lit (negsuc 14) 1) c.force_sl_pnl_gate_pct;
    force_sl_escalate_pnl_pct = amount_or (lit (negsuc 24) 1) c.force_sl_escalate_pnl_pct;
    force_sl_slow_interval_sec = int_or (pos 300) c.force_sl_slow_interval_sec;
    force_sl_fast_interval_sec = int_or (pos 90) c.force_sl_fast_interval_sec;
    force_sl_timeout_sec = int_or (pos 20) c.force_sl_timeout_sec;
  }

  unfoldable pub set_scoring : ScoringConfig F → ScoringConfig F
  set_scoring c = record c { min_score = amount_or (lit (pos 40) 0) c.min_score }

  unfoldable pub set_risk : RiskConfig F → RiskConfig F
  set_risk c = record c {
    max_daily_losses = int_or (pos 4) c.max_daily_losses;
    max_drawdown_pct = amount_or (lit (pos 10) 0) c.max_drawdown_pct;
    max_atr_ratio = amount_or (lit (pos 125) 1) c.max_atr_ratio;
    btc_breakout_reject = on_unless c.btc_breakout_reject;
  }

  unfoldable pub set_after_exec : AfterExecConfig F → AfterExecConfig F
  set_after_exec c = record c {
    subscribe_before_seconds = int_or (pos 5) c.subscribe_before_seconds;
    min_bid_depth_multiplier = amount_or (lit (pos 1) 0) c.min_bid_depth_multiplier;
    full_size_depth_multiplier = amount_or (lit (pos 3) 0) c.full_size_depth_multiplier;
    reduced_size_pct = amount_or (lit (pos 50) 0) c.reduced_size_pct;
    clock_sync_interval_seconds = int_or (pos 300) c.clock_sync_interval_seconds;
    fallback_to_scheduler = on_unless c.fallback_to_scheduler;
  }

  unfoldable pub set_pre_settlement : PreSettlementConfig F → PreSettlementConfig F
  set_pre_settlement c = record c {
    check_before_minutes = int_or (pos 2) c.check_before_minutes;
    emergency_close_threshold = amount_or (lit (pos 75) 2) c.emergency_close_threshold;
    widen_tp_on_miss = on_unless c.widen_tp_on_miss;
  }

  unfoldable pub set_order_book_filter : OrderBookFilterConfig F → OrderBookFilterConfig F
  set_order_book_filter c = record c {
    enabled = on_unless c.enabled;
    max_spread_bps = amount_or (lit (pos 10) 0) c.max_spread_bps;
    depth_ratio_n = amount_or (lit (pos 30) 0) c.depth_ratio_n;
    depth_levels = int_or (pos 50) c.depth_levels;
  }

  unfoldable pub set_memory : MemoryConfig F → MemoryConfig F
  set_memory c = record c {
    embedding_model = text_or "text-embedding-3-small" c.embedding_model;
    embedding_dimensions = int_or (pos 1536) c.embedding_dimensions;
    top_similar = int_or (pos 3) c.top_similar;
    min_similarity = amount_or (lit (pos 4) 1) c.min_similarity;
    max_memory_age = text_or "90d" c.max_memory_age;
    summarizer_model = text_or "gpt-5-mini" c.summarizer_model;
  }

  unfoldable pub set_defaults : Config F → Config F
  set_defaults c = record {
    app = set_app c.app;
    binance = set_binance c.binance;
    trading = set_trading c.trading;
    funding = set_funding c.funding;
    execution = set_execution c.execution;
    scheduler = set_scheduler c.scheduler;
    websocket = set_websocket c.websocket;
    database = set_database c.database;
    scoring = set_scoring c.scoring;
    risk = set_risk c.risk;
    llm = set_llm c.llm;
    memory = set_memory c.memory;
    telegram = set_telegram c.telegram;
    summary = set_summary c.summary;
    after_execution = set_after_exec c.after_execution;
    pre_settlement = set_pre_settlement c.pre_settlement;
    funding_avoidance = set_funding_avoidance c.funding_avoidance;
    order_book_filter = set_order_book_filter c.order_book_filter;
    protection_sweep = set_protection_sweep c.protection_sweep;
  }

  -- `Load`: the file, or none where it cannot be read; `os.ExpandEnv`; and `yaml.Unmarshal`, which
  -- leaves what the file does not name empty.
  pub load : Option String → (String → String) → (String → Option (Config F)) → Option (Config F)
  load none expand_env unmarshal = none
  load (some content) expand_env unmarshal = elim (unmarshal (expand_env content)) [
    | none ↦ none
    | some c ↦ some (set_defaults c)
  ]
