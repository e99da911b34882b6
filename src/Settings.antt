-- ===== src/Settings.antt =====
-- internal/config/config.go: the settings, with the names of their YAML keys. Those of the scheduler and
-- of the funding filter are the records of Scheduler/Tick and Scanner, whose counts are not negative.
pub mod Defaults
pub mod Durations
pub mod Filled
mod Tests
use Prim.Native.String.{String}
use binance_futures.Base.{Bool}
use binance_futures.Base.Int.{ℤ}
use binance_futures.Scanner.{FundingConfig}
use binance_futures.Scheduler.Tick.{SchedulerConfig}

pub record AfterExecConfig (F : Type 0) : Type 0 where
  pub enabled : Bool
  pub subscribe_before_seconds : ℤ
  pub min_bid_depth_multiplier : F
  pub full_size_depth_multiplier : F
  pub reduced_size_pct : F
  pub clock_sync_interval_seconds : ℤ
  pub fallback_to_scheduler : Bool

pub record PreSettlementConfig (F : Type 0) : Type 0 where
  pub enabled : Bool
  pub check_before_minutes : ℤ
  pub emergency_close_threshold : F
  pub widen_tp_on_miss : Bool

pub record FundingAvoidanceConfig : Type 0 where
  pub enabled : Bool
  pub close_before_minutes : ℤ

pub record ProtectionSweepConfig : Type 0 where
  pub enabled : Bool
  pub interval_seconds : ℤ
  pub grace_seconds : ℤ

pub record OrderBookFilterConfig (F : Type 0) : Type 0 where
  pub enabled : Bool
  pub max_spread_bps : F
  pub depth_ratio_n : F
  pub depth_levels : ℤ

pub record TelegramConfig : Type 0 where
  pub enabled : Bool
  pub bot_token : String
  pub chat_id : String
  pub timeout_secs : ℤ

pub record SummaryConfig : Type 0 where
  pub enabled : Bool

pub record AppConfig (F : Type 0) : Type 0 where
  pub mode : String
  pub log_level : String
  pub paper_balance : F
  pub pprof_port : ℤ

pub record BinanceConfig : Type 0 where
  pub api_key : String
  pub api_secret : String
  pub base_url : String
  pub ws_url : String
  pub testnet : Bool

pub record TradingConfig (F : Type 0) : Type 0 where
  pub max_positions : ℤ
  pub leverage : ℤ
  pub position_size_pct : F
  pub cooldown_minutes : ℤ

pub record ExecutionConfig (F : Type 0) : Type 0 where
  pub sl_pct : F
  pub tp_pct : F
  pub trailing_activation_pct : F
  pub breakeven_activation_pct : F
  pub slippage_bps : ℤ
  pub trailing_callback_rate : F
  pub tp1_size_pct : F
  pub tp2_pct : F
  pub force_sl_enabled : Bool
  pub force_sl_start_min : ℤ
  pub force_sl_pnl_gate_pct : F
  pub force_sl_escalate_pnl_pct : F
  pub force_sl_slow_interval_sec : ℤ
  pub force_sl_fast_interval_sec : ℤ
  pub force_sl_timeout_sec : ℤ

pub record LlmConfig : Type 0 where
  pub enabled : Bool
  pub api_key : String
  pub model : String
  pub timeout_secs : ℤ
  pub max_retries : ℤ
  pub max_rpm : ℤ
  pub top_candidates : ℤ
  pub min_confidence : ℤ
  pub frontrun_exec_interval_secs : ℤ
  pub frontrun_fire_minutes : ℤ
  pub call_cooldown_secs : ℤ

pub record WebSocketConfig : Type 0 where
  pub ping_interval : String
  pub stale_timeout : String
  pub max_reconnect_failures : ℤ
  pub reconnect_base_backoff : String
  pub reconnect_max_backoff : String

pub record ScoringConfig (F : Type 0) : Type 0 where
  pub min_score : F
  pub min_score_override : F

pub record RiskConfig (F : Type 0) : Type 0 where
  pub max_daily_losses : ℤ
  pub max_drawdown_pct : F
  pub max_atr_ratio : F
  pub btc_breakout_reject : Bool

pub record MemoryConfig (F : Type 0) : Type 0 where
  pub enabled : Bool
  pub embedding_model : String
  pub embedding_dimensions : ℤ
  pub top_similar : ℤ
  pub min_similarity : F
  pub embed_skips : Bool
  pub max_memory_age : String
  pub summarizer_model : String

pub record PostgresConfig : Type 0 where
  pub host : String
  pub port : ℤ
  pub user : String
  pub password : String
  pub dbname : String
  pub sslmode : String
  pub max_conns : ℤ

pub record RedisConfig : Type 0 where
  pub addr : String
  pub password : String
  pub db : ℤ

pub record DatabaseConfig : Type 0 where
  pub postgres : PostgresConfig
  pub redis : RedisConfig

pub record Config (F : Type 0) : Type 0 where
  pub app : AppConfig F
  pub binance : BinanceConfig
  pub trading : TradingConfig F
  pub funding : FundingConfig F
  pub execution : ExecutionConfig F
  pub scheduler : SchedulerConfig
  pub websocket : WebSocketConfig
  pub database : DatabaseConfig
  pub scoring : ScoringConfig F
  pub risk : RiskConfig F
  pub llm : LlmConfig
  pub memory : MemoryConfig F
  pub telegram : TelegramConfig
  pub summary : SummaryConfig
  pub after_execution : AfterExecConfig F
  pub pre_settlement : PreSettlementConfig F
  pub funding_avoidance : FundingAvoidanceConfig
  pub order_book_filter : OrderBookFilterConfig F
  pub protection_sweep : ProtectionSweepConfig
