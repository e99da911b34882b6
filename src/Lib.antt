-- ===== src/Lib.antt =====
-- A verification library for the bot that shorts perpetual futures around the funding settlements.
--
-- Every few minutes before a settlement the scheduler (internal/scheduler) asks for a scan. A scan
-- scores candidates (internal/scoring), passes them through the risk checks (internal/risk) and
-- puts trade intents on a ranked queue (internal/intent). Ticks of the scheduler make the queue hand
-- its best intents to the execution engine (internal/execution/engine.go), which sells at the
-- market. When the fill is confirmed, the position manager (internal/execution/position_manager.go)
-- places a stop and take-profits, retries what fails, and records the close.
--
-- Which file models which part:
--   Scheduler: internal/scheduler/window.go, the clock. `NextFundingTime`, `CurrentWindow` and
--     `NextWindowBounds` are `next_funding_time`, `current_window` and `next_window_bounds`; the
--     last takes fuel for its loop, and two tests are enough at any time.
--   Scheduler/Tick: one tick of internal/scheduler/scheduler.go. The clock is read as often as the
--     code reads it; the effects are the call of the queue, the lock and the scan.
--   Intent: internal/intent. The queue is a record; each method is a function on it. `execFn` runs
--     without the mutex, so a tick takes what other goroutines do during each call.
--   Domain: internal/domain, the records and enums that the other parts use.
--   Execution/World: the state the execution layer changes, as stores over internal/storage/redis.go
--     and the trade table, and the exchange behind `Executor` as a parameter.
--   Execution/Entry: `finalizeSLTP`. Execution/Close: the fills that close a position, and
--     `persistClose`. Execution/Fills: `HandleUserDataEvent`, the first take-profit and
--     `checkPaperFills`. Execution/Protection: `forceClose` and `retryProtection`;
--     Execution/Protection/Sweep: `sweepUnprotectedPositions` and `emergencyProtect`.
--     Execution/Settlement: the checks around a settlement and `checkFundingAvoidance`.
--     Execution/Monitor: `check`, the tick of one position, of which the verdict of the language
--     model is an argument. Execution/Engine: `execute` of internal/execution/engine.go.
--     Execution/Handlers: internal/execution/intent_handler.go and after_strategy.go, which stand
--     between the queue and the engine. Execution/Reconcile: internal/execution/reconciler.go.
--     Execution/Paper: internal/execution/paper_executor.go, one instance of that exchange, and
--     Execution/Live: internal/execution/live_executor.go, another.
--     Execution/Calls: the orders that statements name, field by field.
--     Execution/Store: what the stores of internal/storage/redis.go give back.
--   Market: internal/market and internal/indicator/oi_delta.go. Market/Candles is the candle store
--     of at most 200 candles a series; Market/OpenInterest keeps 288 snapshots; Market/Funding and
--     Market/Books are the other caches, and Market/Engine holds them.
--   Scanner: internal/scanner. What it reads is the `MarketProvider` that Market/Engine gives.
--   Indicators: internal/indicator. Indicators/Trend, Bearish and Bullish are candle_pattern.go;
--     Indicators/Averages is rsi.go, atr.go and volume.go; Indicators/Btc is btc.go and
--     Indicators/Divergence rsi_divergence.go; Indicators/Snapshot is `Compute`.
--   Scoring: internal/scoring/scorer.go, of which Scoring/Candles and Scoring/Composite are
--     `scoreCandlePatterns` and `Score`. Risk: internal/risk.
--   Llm: internal/llm. Llm is the request of mapper.go with the records of schema.go, Llm/Decision
--     the reading of a response and `DecisionEngine.Evaluate`, Llm/ForceSl the verdict of
--     force_sl.go, Llm/Client the rate limit and the retry of client.go. The call of the
--     language model itself is a parameter.
--   App: `scanFn` of internal/app/scan.go, which brings the parts together. App/Restricted is
--     `isRestrictedDay`, App/Filters the filters before the scoring, App/Gates the gates after it,
--     App/Asking the question and what follows it, and App/Scan the whole. The market is the same
--     throughout a scan, and each reading of the clock has a name, so that time may pass between.
--     Intent/Served is what the tick at the end promises to an intent that was just enqueued.
--   Settings: internal/config/config.go. Settings has the records, Settings/Defaults `setDefaults` and
--     `Load`, Settings/Durations the readers of durations.
--   Memory: internal/memory, of which feature_builder.go has the buckets and retriever.go `FindSimilar`.
--     Its answers reach a scan as an argument; its panics do not.
--   Base, Float64: shared lists, integers, `sort.Slice` as a parameter with its laws, and Go's
--     float64 as an interface, with decimal fixed point as a carrier for the examples.
--   Samples and the modules Tests: concrete values and examples.
--
-- Times are nanoseconds since a UTC midnight and do not wrap. Theorems about prices and scores are
-- stated over any float carrier, so no law of arithmetic is assumed; those that need comparison to
-- be an order say so. Redis and the trade table answer and store what they are given. The JSON of
-- a pending entry is a parameter, which may fail; positions and the records of a missing protection
-- are taken to have a JSON, that is, to hold no NaN or infinity. The exchange may refuse anything.
--
-- Not modelled: the default scoring tables, the sleeps of the trigger after a settlement, the request
-- of `checkForceSL`, the texts of the prompts and the memory of skips. The REST and socket clients of
-- the exchange, the request to the language model, SQL, the dashboard, notifications and telemetry
-- are input and output.
pub mod App
pub mod Llm
pub mod Settings
pub mod Memory
pub mod Base
pub mod Scheduler
pub mod Float64
pub mod Domain
pub mod Intent
pub mod Execution
pub mod Scoring
pub mod Risk
pub mod Indicators
pub mod Market
pub mod Scanner
pub mod Samples
