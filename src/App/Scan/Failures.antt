-- ===== src/App/Scan/Failures.antt =====
-- A scan whose language model fails.
use Prim.Native.String.{String}
use text.Mathlib.Text.{◌==◌ as str_eq}
use binance_futures.Base.{◌≡◌, refl, Bool, true, false, not, ◌&&◌, List, ◌∷◌}
use binance_futures.Float64.{Float64}
use binance_futures.Domain.{IndicatorSnapshot, LlmDecision, ScoredCandidate}
use binance_futures.Intent.{has_pending_symbol}
use binance_futures.Intent.Symbols.{has_pending_symbol-cancel_by_symbol}
use binance_futures.Llm.Decision.{LlmReply, answered, evaluate, invalid, unavailable}
use binance_futures.Scheduler.{WindowType}
use binance_futures.App.Asking.{Orders, ask_model, act_on, request_of, skipped}
use binance_futures.App.Gates.{is_frontrun, is_skip}
use binance_futures.App.State.{AppState, Inputs, ScanConfig}

abbrev pub is_answer : LlmReply → Bool
is_answer (answered _) = true
is_answer _ = false

module _ {F : Type 0} ⦃f : Float64 F⦄ (cfg : ScanConfig F) (e : Inputs F) (o : Orders F)
    (w : WindowType) where
  act_on-skip :
      (d : LlmDecision) (sc : ScoredCandidate F) (ind : IndicatorSnapshot F)
      (rest : List (ScoredCandidate F × IndicatorSnapshot F)) (st : AppState F)
      → is_skip d ≡ true
      → is_frontrun w ≡ false
      → let x = act_on cfg e o w d ((sc, ind) ∷ rest) st in
        (x.0 ≡ skipped d)
        × ((t : String)
            → has_pending_symbol t x.1.queue
              ≡ (not (str_eq t sc.candidate.symbol) && has_pending_symbol t st.queue))
  unfolding act_on
  act_on-skip d sc ind rest st k n =
      rw (k, n) (refl, λ t. has_pending_symbol-cancel_by_symbol sc.candidate.symbol t st.queue)

  failure-skips :
      (reply : LlmReply) (cs : List (ScoredCandidate F))
      → is_answer reply ≡ false
      → is_skip (evaluate cfg.min_confidence cs reply) ≡ true
  unfolding evaluate
  failure-skips (unavailable error) cs h = refl
  failure-skips invalid cs h = refl
  failure-skips (answered r) cs h = cc

  -- Where the language model fails outside FRONTRUN, the scan takes it for a skip: the pending intent
  -- of the first candidate is cancelled, and that of no other symbol.
  pub ask_model_failure :
      (sc : ScoredCandidate F) (ind : IndicatorSnapshot F)
      (rest : List (ScoredCandidate F × IndicatorSnapshot F)) (st : AppState F)
      → is_answer (e.ask (request_of cfg e o w ((sc, ind) ∷ rest) st.last_llm_call)) ≡ false
      → is_frontrun w ≡ false
      → let x = ask_model cfg e o w ((sc, ind) ∷ rest) st in
        ((d : LlmDecision) × (x.0 ≡ skipped d))
        × ((t : String)
            → has_pending_symbol t x.1.queue
              ≡ (not (str_eq t sc.candidate.symbol) && has_pending_symbol t st.queue))
  unfolding ask_model
  ask_model_failure sc ind rest st h n =
      let (result, pending) = act_on-skip _ sc ind rest _ (failure-skips _ _ h) n in
      ((_, result), pending)
