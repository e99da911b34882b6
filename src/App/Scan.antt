-- ===== src/App/Scan.antt =====
-- `scanFn` of internal/app/scan.go. `Compute` gives no error, so every candidate is scored.
pub mod Ends
pub mod Asked
pub mod Enqueues
pub mod Fires
pub mod Frame
pub mod Failures
use Prim.Native.String.{String}
use text.Mathlib.Text.{◌==◌ as str_eq}
use binance_futures.Base.{
  ℕ, ◌+◌, ◌*◌, Bool, true, false, not, ◌&&◌, ◌||◌, Option, none, some, List, [], ◌∷◌, keep, map,
  take, if◌then◌else◌,
}
use binance_futures.Base.Int.{ℤ, pos, sub_ℕ, ltb_ℤ}
use binance_futures.Base.Sorting.{Sorter}
use binance_futures.Float64.{Float64, nought}
use binance_futures.Domain.{
  BtcContext, Candidate, Candle, ConfidenceTier, IndicatorSnapshot, LlmDecision, ScoredCandidate,
  Timeframe,
}
use binance_futures.Execution.World.{World, set_symbol_cooldown}
use binance_futures.Indicators.Btc.{compute_btc_context}
use binance_futures.Indicators.Snapshot.{compute}
use binance_futures.Intent.{
  IntentStatus, TradeIntent, Queue, cancel_by_symbol, enqueue, has_after_intent, tick_queue,
}
use binance_futures.Llm.{LlmRequest, map_to_llm_request}
use binance_futures.Llm.Decision.{evaluate}
use binance_futures.Market.Engine.{provider}
use binance_futures.Risk.{PreCheckResult, pre_check}
use binance_futures.Scanner.{filter_by_volume, scan as scan_market}
use binance_futures.Scheduler.{WindowType, minute, next_funding_time}
use binance_futures.Scoring.Composite.{score}
use binance_futures.App.Filters.{
  filter_cooldown_symbols, filter_occupied_symbols, filter_thin_order_book,
}
use binance_futures.App.Gates.{
  build_prior_reasons, confidence_to_size, has_reversal_evidence, higher_score, in_call_cooldown,
  inputs_unchanged, is_after, is_fresh, is_frontrun, is_skip, last_call_of_cycle, prior_context,
  select, selected_score, skip_cooldown_until_next_window, symbol_cooldown_for, trend_of,
}
use binance_futures.App.Restricted.{is_restricted_day}
use binance_futures.App.State.{AppState, Inputs, LlmCallState, Moment, ScanConfig}
use binance_futures.App.Asking.{
  Orders, ScanResult, ask_model, btc, deadline, score_candidate, restricted_day, call_cooldown,
  after_queued, risk_rejected, none_scanned, none_free, none_cool, none_liquid, none_deep, early,
  none_fresh, none_confluent, unchanged,
}

module _ {F : Type 0} where
  -- `if len(xs) == 0 { return nil }`
  unfoldable pub unless_empty :
      {A : Type 0}
      → ScanResult F
      → List A
      → AppState F
      → ScanResult F × AppState F
      → ScanResult F × AppState F
  unless_empty r [] st rest = (r, st)
  unless_empty r (_ ∷ _) st rest = rest

module _ {F : Type 0} ⦃f : Float64 F⦄ (cfg : ScanConfig F) (e : Inputs F) (o : Orders F)
    (w : WindowType) where
  -- From the scoring on.
  unfoldable pub evaluate_top :
      List (ScoredCandidate F × IndicatorSnapshot F) → AppState F → ScanResult F × AppState F
  evaluate_top confluent st =
      let top = take cfg.top_candidates confluent in
      if inputs_unchanged w (trend_of (btc cfg e o w)) st.last_llm_call top
      then (unchanged, st)
      else ask_model cfg e o w top st

  abbrev pub fresh_of : List (Candidate F) → List (ScoredCandidate F × IndicatorSnapshot F)
  fresh_of cs = keep is_fresh (o.by_score.sort higher_score (map (score_candidate cfg e o w) cs))

  unfoldable pub score_all : List (Candidate F) → AppState F → ScanResult F × AppState F
  score_all cs st =
      let confluent = keep has_reversal_evidence (fresh_of cs) in
      unless_empty none_fresh (fresh_of cs) st
        (unless_empty none_confluent confluent st (evaluate_top confluent st))

  -- The gate of FRONTRUN before T-20m.
  abbrev pub is_early : Bool
  is_early =
      is_frontrun w
      && ltb_ℤ (pos (20 * minute))
          (sub_ℕ (next_funding_time (e.clock Moment.at_gate)) (e.clock Moment.until_gate))

  unfoldable pub past_gate : List (Candidate F) → AppState F → ScanResult F × AppState F
  past_gate cs st = if is_early then (early, st) else score_all cs st

  unfoldable pub filter_all : AppState F → ScanResult F × AppState F
  filter_all st =
      let scanned =
        scan_market cfg.funding (provider e.market) (e.clock Moment.at_scan) o.by_rate in
      let free = filter_occupied_symbols e scanned in
      let cool = filter_cooldown_symbols e free in
      let liquid = filter_by_volume cfg.min_volume_24h_m cool in
      let (deep, books, world) = filter_thin_order_book cfg e liquid st.books st.world in
      let st' = record st { books = books; world = world } in
      unless_empty none_scanned scanned st (
        unless_empty none_free free st (
          unless_empty none_cool cool st (
            unless_empty none_liquid liquid st
              (unless_empty none_deep deep st' (past_gate deep st')))))

  abbrev pub checked_risk : PreCheckResult → AppState F → ScanResult F × AppState F
  checked_risk PreCheckResult.passed st = filter_all st
  checked_risk other st = (risk_rejected other, st)

  unfoldable pub scan_fn : AppState F → ScanResult F × AppState F
  scan_fn st =
      let last = last_call_of_cycle w (deadline cfg e o w) st.last_llm_call in
      let st' = record st { last_llm_call = last } in
      if is_restricted_day (e.clock Moment.at_restriction)
      then (restricted_day, st)
      else if in_call_cooldown (e.clock Moment.at_cooldown) cfg.call_cooldown_secs last
      then (call_cooldown, st')
      else if is_after w && has_after_intent st.queue
      then (after_queued, st')
      else checked_risk (pre_check cfg.risk e.checked) st'
