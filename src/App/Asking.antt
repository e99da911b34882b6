-- ===== src/App/Asking.antt =====
-- The last part of `scanFn` of internal/app/scan.go, from the question to the language model. What a
-- fired intent does to the world is the part of Execution/Handlers; the memory of skips is not kept.
use Prim.Native.String.{String}
use binance_futures.Base.{ℕ, ◌+◌, Option, none, some, List, [], ◌∷◌, map, if◌then◌else◌}
use binance_futures.Base.Int.{sub_ℕ}
use binance_futures.Base.Sorting.{Sorter}
use binance_futures.Float64.{Float64, nought}
use binance_futures.Domain.{
  BtcContext, Candidate, Candle, ConfidenceTier, IndicatorSnapshot, LlmDecision, ScoredCandidate,
  Timeframe,
}
use binance_futures.Execution.World.{World, set_symbol_cooldown}
use binance_futures.Indicators.Btc.{compute_btc_context}
use binance_futures.Indicators.Snapshot.{compute}
use binance_futures.Intent.{IntentStatus, TradeIntent, Queue, cancel_by_symbol, enqueue, tick_queue}
use binance_futures.Llm.{LlmRequest, map_to_llm_request}
use binance_futures.Llm.Decision.{evaluate}
use binance_futures.Market.Engine.{provider}
use binance_futures.Risk.{PreCheckResult}
use binance_futures.Scheduler.{WindowType, minute, next_funding_time}
use binance_futures.Scoring.Composite.{score}
use binance_futures.App.Gates.{
  build_prior_reasons, confidence_to_size, is_frontrun, is_skip, prior_context, select,
  selected_score, skip_cooldown_until_next_window, symbol_cooldown_for, trend_of,
}
use binance_futures.App.State.{AppState, Inputs, LlmCallState, Moment, ScanConfig}

-- Where a scan ends.
pub data ScanResult (F : Type 0) : Type 0 where
  restricted_day call_cooldown after_queued : ScanResult F
  risk_rejected : PreCheckResult → ScanResult F
  none_scanned none_free none_cool none_liquid none_deep early : ScanResult F
  none_fresh none_confluent unchanged : ScanResult F
  skipped unknown_symbol unsure : LlmDecision → ScanResult F
  -- The intent that was enqueued, and what the tick after it fired.
  enqueued : TradeIntent F → List (TradeIntent F) → ScanResult F

-- The calls of `sort.Slice`, and the order of a `range` over the timeframes.
pub record Orders (F : Type 0) : Type 0 where
  pub by_rate : Sorter (Candidate F)
  pub by_minimum : Sorter (ConfidenceTier F)
  pub by_score : Sorter (ScoredCandidate F × IndicatorSnapshot F)
  pub by_confidence : Sorter (TradeIntent F)
  pub visit : List Timeframe → List Timeframe

module _ {F : Type 0} where
  -- `setAllSkipCooldowns`.
  abbrev pub set_all_skip_cooldowns :
      ℕ → List (ScoredCandidate F × IndicatorSnapshot F) → World F → World F
  set_all_skip_cooldowns d [] w = w
  set_all_skip_cooldowns d ((sc, _) ∷ rest) w =
      set_all_skip_cooldowns d rest (set_symbol_cooldown sc.candidate.symbol d w)

  -- A skip cancels the intent of the first candidate, except in FRONTRUN.
  abbrev pub cancel_first :
      WindowType → List (ScoredCandidate F × IndicatorSnapshot F) → Queue F → Queue F
  cancel_first w [] q = q
  cancel_first w ((sc, _) ∷ _) q =
      if is_frontrun w then q else cancel_by_symbol sc.candidate.symbol q

module _ {F : Type 0} ⦃f : Float64 F⦄ (cfg : ScanConfig F) (e : Inputs F) (o : Orders F)
    (w : WindowType) where
  open f use {le}

  abbrev pub deadline : ℕ
  deadline = next_funding_time (e.clock Moment.at_deadline)

  abbrev pub candles_of : String → Timeframe → ℕ → List (Candle F)
  candles_of symbol tf n = (provider e.market).candles symbol tf n

  abbrev pub btc : Option (BtcContext F)
  btc =
      compute_btc_context (candles_of "BTCUSDT" Timeframe.h1 40)
        (candles_of "BTCUSDT" Timeframe.m15 20)

  -- `Compute` and `Score` of each candidate.
  abbrev pub score_candidate : Candidate F → ScoredCandidate F × IndicatorSnapshot F
  score_candidate c =
      let ind =
        compute (candles_of c.symbol) (some e.market.oi) (e.clock Moment.at_snapshots) c.symbol in
      (score o.by_minimum o.visit cfg.scoring c ind btc, ind)

  -- The intent of a decision for the selected candidate.
  abbrev pub intent_of : LlmDecision → ScoredCandidate F → ℕ → TradeIntent F
  intent_of d sc settlement = record {
    address = e.new_address;
    symbol = d.symbol;
    candidate = sc;
    decision = d;
    target_entry_mode = d.entry_mode;
    created_at = e.clock Moment.at_creation;
    expires_at = settlement + minute;
    status = IntentStatus.pending;
  }

  -- From `Enqueue` to the end.
  abbrev pub hand_over : LlmDecision → ScoredCandidate F → AppState F → ScanResult F × AppState F
  hand_over d sc st =
      let settlement = next_funding_time (e.clock Moment.at_settlement) in
      let i = intent_of d sc settlement in
      let (queue, fires) =
        tick_queue o.by_confidence e.surroundings (e.clock Moment.at_queue_tick) w
          (sub_ℕ settlement (e.clock Moment.at_tick)) (enqueue o.by_confidence i st.queue) in
      (enqueued i fires, record st { queue = queue })

  -- The size of the selected candidate.
  abbrev pub size_selected :
      LlmDecision
      → Option (ScoredCandidate F × IndicatorSnapshot F)
      → AppState F
      → ScanResult F × AppState F
  size_selected d none st = (unknown_symbol d, st)
  size_selected d (some (sc, _)) st =
      let size = confidence_to_size d.confidence cfg.books.position_size_pct in
      if le size nought
      then (unsure d, st)
      else hand_over d (record sc { position_size_pct = size }) st

  -- What follows the record of the call.
  unfoldable pub act_on :
      LlmDecision
      → List (ScoredCandidate F × IndicatorSnapshot F)
      → AppState F
      → ScanResult F × AppState F
  act_on d top st =
      if is_skip d
      then (
        skipped d,
        record st {
          world =
              set_all_skip_cooldowns
                (skip_cooldown_until_next_window w (e.clock Moment.at_skip)
                  (e.clock Moment.at_skip_until))
                top st.world;
          queue = cancel_first w top st.queue;
        },
      )
      else size_selected d (select d.symbol top) (record st {
        world = set_symbol_cooldown d.symbol (symbol_cooldown_for d.action) st.world;
      })

  abbrev pub request_of :
      List (ScoredCandidate F × IndicatorSnapshot F) → Option (LlmCallState F) → LlmRequest F
  request_of top last =
      map_to_llm_request cfg.execution.tp_pct e.similar e.win_rates (e.clock Moment.at_request)
        (e.clock Moment.at_request_until) (e.clock Moment.at_request_stamp) top btc
        (prior_context deadline (e.clock Moment.at_age) last)

  unfoldable pub ask_model :
      List (ScoredCandidate F × IndicatorSnapshot F) → AppState F → ScanResult F × AppState F
  unfolding act_on
  ask_model top st =
      let d =
        evaluate cfg.min_confidence (map (λ s. s.0) top)
          (e.ask (request_of top st.last_llm_call)) in
      act_on d top (record st {
        last_llm_call = some (record {
          symbol = d.symbol;
          score = selected_score nought d.symbol top;
          btc_trend = trend_of btc;
          window = w;
          called_at = e.clock Moment.at_call;
          cycle_deadline = deadline;
          prior_action = d.action;
          prior_reasons = build_prior_reasons d;
          prior_warnings = d.warnings;
        });
      })
