-- ===== src/App/State.antt =====
-- What a scan of internal/app/scan.go reads and changes. `Moment` names its readings of the clock, in
-- their order.
use Prim.Native.String.{String}
use binance_futures.Base.{ℕ, Bool, Option, List}
use binance_futures.Base.Int.{ℤ}
use binance_futures.Domain.{ModeWinRate, ScoringConfig, SimilarTrade}
use binance_futures.Execution.World.{Config, Exchange, World}
use binance_futures.Intent.{Queue, Surroundings}
use binance_futures.Llm.{LlmRequest}
use binance_futures.Llm.Decision.{LlmReply}
use binance_futures.Market.Books.{BookTicker}
use binance_futures.Market.Engine.{MarketEngine}
use binance_futures.Risk.{CacheAnswers, RiskConfig}
use binance_futures.Scanner.{FundingConfig}
use binance_futures.Scheduler.{WindowType}

-- `llmCallState`.
pub record LlmCallState (F : Type 0) : Type 0 where
  pub symbol : String
  pub score : F
  pub btc_trend : String
  pub window : WindowType
  pub called_at : ℕ
  pub cycle_deadline : ℕ
  pub prior_action : String
  pub prior_reasons : List String
  pub prior_warnings : List String

-- The fields of `App` that a scan changes.
pub record AppState (F : Type 0) : Type 0 where
  pub world : World F
  pub queue : Queue F
  pub last_llm_call : Option (LlmCallState F)
  pub books : String → Option (BookTicker F)

pub data Moment : Type 0 where
  at_restriction at_deadline at_cooldown at_scan at_gate until_gate at_snapshots at_age : Moment
  at_request at_request_until at_request_stamp at_call at_skip at_skip_until : Moment
  at_settlement at_creation at_tick at_queue_tick : Moment

pub record PriceLevel (F : Type 0) : Type 0 where
  pub price : F
  pub qty : F

-- `OrderBookFilterConfig` with the settings that the filter takes from elsewhere.
pub record BookFilter (F : Type 0) : Type 0 where
  pub enabled : Bool
  pub max_spread_bps : F
  pub depth_ratio_n : F
  pub depth_levels : ℕ
  pub position_size_pct : F

-- The settings of a scan.
pub record ScanConfig (F : Type 0) : Type 0 where
  pub execution : Config F
  pub risk : RiskConfig F
  pub funding : FundingConfig F
  pub scoring : ScoringConfig F
  pub books : BookFilter F
  pub min_volume_24h_m : F
  pub call_cooldown_secs : ℕ
  pub top_candidates : ℕ
  pub min_confidence : ℤ

-- What a scan is given: the clock, the answers of the cache on cooldowns and to the two reads of the
-- positions, the market, the exchange, the memory, the language model, and what surrounds the tick of
-- the queue. `none` is an error, of `book_ticker` too. `similar` and `win_rates`, by the symbol of a
-- candidate, are empty without a memory engine or after an error; the panic of the memory without a
-- context of BTC is in Memory. `new_address` is the pointer of the intent.
pub record Inputs (F : Type 0) : Type 0 where
  pub clock : Moment → ℕ
  pub on_cooldown : String → Option Bool
  pub checked : CacheAnswers F
  pub occupied : CacheAnswers F
  pub market : MarketEngine F
  pub has_book_cache : Bool
  pub exchange : Exchange F
  pub depth : String → ℕ → Option (List (PriceLevel F))
  pub book_ticker : String → Option (BookTicker F)
  pub similar : String → List (SimilarTrade F)
  pub win_rates : String → List (String × ModeWinRate)
  pub ask : LlmRequest F → LlmReply
  pub surroundings : Surroundings F
  pub new_address : ℕ
