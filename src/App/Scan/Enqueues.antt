-- ===== src/App/Scan/Enqueues.antt =====
-- What `scanFn` hands to the queue.
use text.Mathlib.Text.{◌==◌ as str_eq}
use binance_futures.Base.{
  ◌+◌, ◌≡◌, sym, refl, inl, inr, Bool, Bool-cases, true, false, ◌&&◌, Option, none, some, List, All,
  All-take, if◌then◌else◌,
}
use binance_futures.Base.Int.{sub_ℕ}
use binance_futures.Base.Sorting.{IsSort}
use binance_futures.Float64.{Float64, nought}
use binance_futures.Domain.{Candidate, IndicatorSnapshot, LlmDecision, ScoredCandidate}
use binance_futures.Intent.{IntentStatus, has_after_intent, Queue, TradeIntent, enqueue, tick_queue}
use binance_futures.Risk.{PreCheckResult, pre_check}
use binance_futures.Scheduler.{WindowType, minute, next_funding_time}
use binance_futures.App.Asking.{
  deadline, Orders, enqueued, early, none_confluent, none_cool, none_deep, none_free, none_fresh,
  none_liquid, none_scanned, skipped, unchanged, unknown_symbol, unsure, restricted_day,
  call_cooldown, after_queued, ask_model, act_on, size_selected,
}
use binance_futures.App.Gates.{
  confidence_to_size, is_skip, in_call_cooldown, is_after, last_call_of_cycle, select,
}
use binance_futures.App.Restricted.{is_restricted_day}
use binance_futures.App.Scan.{
  is_early, past_gate, evaluate_top, scan_fn, checked_risk, filter_all, score_all,
}
use binance_futures.App.State.{AppState, Inputs, Moment, ScanConfig}
use binance_futures.App.Scan.Ends.{
  Enqueues, stops, hands, map-Enqueues, unless_empty-Enqueues, if-Enqueues,
}
use binance_futures.App.Scan.Asked.{
  Askable, Asked, select-Found, filter_thin-All, liquid-Askable, confluent-Asked,
}

module _ {F : Type 0} ⦃f : Float64 F⦄ (cfg : ScanConfig F) (e : Inputs F) (o : Orders F)
    (w : WindowType) where
  open f use {lit, lt, le}

  abbrev pub tick_after : TradeIntent F → Queue F → List (TradeIntent F)
  tick_after i q =
      (tick_queue o.by_confidence e.surroundings (e.clock Moment.at_queue_tick) w
        (sub_ℕ (next_funding_time (e.clock Moment.at_settlement)) (e.clock Moment.at_tick))
        (enqueue o.by_confidence i q)).1

  -- What an enqueued intent and the fires that follow come from, for the queue before.
  pub record Handed (q : Queue F) (i : TradeIntent F) (fires : List (TradeIntent F)) : Type 0 where
    pub source : ScoredCandidate F × IndicatorSnapshot F
    pub asked : Asked cfg e o w source
    pub same_symbol : i.symbol ≡ source.0.candidate.symbol
    pub sized : i.candidate ≡ record source.0 { position_size_pct = i.candidate.position_size_pct }
    pub positive_size : le i.candidate.position_size_pct nought ≡ false
    pub no_skip : str_eq i.decision.action "SKIP" ≡ false
    pub expires : i.expires_at ≡ next_funding_time (e.clock Moment.at_settlement) + minute
    pub status : i.status ≡ IntentStatus.pending
    pub ticked : fires ≡ tick_after i q

  size_found-Handed :
      (d : LlmDecision) (found : Option (ScoredCandidate F × IndicatorSnapshot F)) (st : AppState F)
      → str_eq d.action "SKIP" ≡ false
      → ((s : ScoredCandidate F × IndicatorSnapshot F)
          → found ≡ some s
          → Asked cfg e o w s × (s.0.candidate.symbol ≡ d.symbol))
      → Enqueues (Handed st.queue) (size_selected cfg e o w d found st)
  size_found-Handed d none st n h = stops (unknown_symbol d) st refl
  size_found-Handed d (some (sc, ind)) st n h =
      let size = confidence_to_size d.confidence cfg.books.position_size_pct in
      elim (Bool-cases (le size nought)) [
        | inl y ↦ rw y (stops (unsure d) st refl)
        | inr m ↦ rw m (
            hands _ _ _ (record {
              source = (sc, ind);
              asked = (h (sc, ind) refl).0;
              same_symbol = sym (h (sc, ind) refl).1;
              sized = refl;
              positive_size = m;
              no_skip = n;
              expires = refl;
              status = refl;
              ticked = refl;
            }))
      ]

  size_selected-Handed :
      (d : LlmDecision) (top : List (ScoredCandidate F × IndicatorSnapshot F)) (st : AppState F)
      → All (Asked cfg e o w) top
      → str_eq d.action "SKIP" ≡ false
      → Enqueues (Handed st.queue) (size_selected cfg e o w d (select d.symbol top) st)
  size_selected-Handed d top st h n =
      size_found-Handed d (select d.symbol top) st n
        (λ s found. select-Found (Asked cfg e o w) d.symbol top s h found)

  act_on-Handed :
      (d : LlmDecision) (top : List (ScoredCandidate F × IndicatorSnapshot F)) (st : AppState F)
      → All (Asked cfg e o w) top
      → Enqueues (Handed st.queue) (act_on cfg e o w d top st)
  unfolding act_on
  act_on-Handed d top st h = elim (Bool-cases (is_skip d)) [
    | inl y ↦ rw y (stops (skipped d) _ refl)
    | inr n ↦ rw n (size_selected-Handed d top _ h n)
  ]

  ask_model-Handed :
      (top : List (ScoredCandidate F × IndicatorSnapshot F)) (st : AppState F)
      → All (Asked cfg e o w) top
      → Enqueues (Handed st.queue) (ask_model cfg e o w top st)
  unfolding ask_model
  ask_model-Handed top st h = act_on-Handed _ top _ h

  evaluate_top-Handed :
      (confluent : List (ScoredCandidate F × IndicatorSnapshot F)) (st : AppState F)
      → All (Asked cfg e o w) confluent
      → Enqueues (Handed st.queue) (evaluate_top cfg e o w confluent st)
  unfolding evaluate_top
  evaluate_top-Handed confluent st h =
      if-Enqueues _ _ _ (stops unchanged st refl)
        (λ n. ask_model-Handed _ st (All-take (Asked cfg e o w) cfg.top_candidates confluent h))

  score_all-Handed :
      IsSort o.by_score
      → (cs : List (Candidate F)) (st : AppState F) → All (Askable cfg e o w) cs
      → Enqueues (Handed st.queue) (score_all cfg e o w cs st)
  unfolding score_all
  score_all-Handed laws cs st h = unless_empty-Enqueues none_fresh _ st _ refl (
      unless_empty-Enqueues none_confluent _ st _ refl
        (evaluate_top-Handed _ st (confluent-Asked cfg e o w laws cs h)))

  past_gate-Handed :
      IsSort o.by_score
      → (cs : List (Candidate F)) (st : AppState F) → All (Askable cfg e o w) cs
      → Enqueues (Handed st.queue) (past_gate cfg e o w cs st)
  unfolding past_gate
  past_gate-Handed laws cs st h =
      if-Enqueues (is_early cfg e o w) (early, st) _ (stops early st refl)
        (λ n. score_all-Handed laws cs st h)

  filter_all-Handed :
      IsSort o.by_rate
      → IsSort o.by_score
      → (st : AppState F) → Enqueues (Handed st.queue) (filter_all cfg e o w st)
  unfolding filter_all
  filter_all-Handed rates laws st = unless_empty-Enqueues none_scanned _ st _ refl (
      unless_empty-Enqueues none_free _ st _ refl (
        unless_empty-Enqueues none_cool _ st _ refl (
          unless_empty-Enqueues none_liquid _ st _ refl (
            unless_empty-Enqueues none_deep _ _ _ refl (
              past_gate-Handed laws _ _ (
                filter_thin-All cfg e o w (Askable cfg e o w) _ st.books st.world
                  (liquid-Askable cfg e o w rates)))))))

  checked_risk-Handed :
      IsSort o.by_rate
      → IsSort o.by_score
      → (r : PreCheckResult) (st : AppState F)
      → Enqueues
          (λ i fires. (r ≡ PreCheckResult.passed) × Handed st.queue i fires)
          (checked_risk cfg e o w r st)
  checked_risk-Handed rates laws PreCheckResult.passed st =
      map-Enqueues _ _ (λ i fires h. (refl, h)) (filter_all-Handed rates laws st)
  checked_risk-Handed rates laws PreCheckResult.kill_switch_error st = stops _ st refl
  checked_risk-Handed rates laws PreCheckResult.kill_switch_active st = stops _ st refl
  checked_risk-Handed rates laws PreCheckResult.positions_error st = stops _ st refl
  checked_risk-Handed rates laws PreCheckResult.max_positions st = stops _ st refl
  checked_risk-Handed rates laws PreCheckResult.daily_loss_limit st = stops _ st refl

  gates-Handed :
      IsSort o.by_rate
      → IsSort o.by_score
      → (cooling queued : Bool) (st : AppState F)
      → Enqueues
          (λ i fires.
            (pre_check cfg.risk e.checked ≡ PreCheckResult.passed) × Handed st.queue i fires)
          (if cooling
            then (call_cooldown, st)
            else if queued
            then (after_queued, st)
            else checked_risk cfg e o w (pre_check cfg.risk e.checked) st)
  gates-Handed rates laws true queued st = stops call_cooldown st refl
  gates-Handed rates laws false true st = stops after_queued st refl
  gates-Handed rates laws false false st =
      checked_risk-Handed rates laws (pre_check cfg.risk e.checked) st

  -- Where the candidates and the scored ones are sorted, an intent that a scan enqueues is for a
  -- symbol that the scanner may offer, that no position read holds and that is not on cooldown, with a
  -- score of at least 47 and a short RSI of at least 35. Its decision is no "SKIP", its size is not 0
  -- or less, and it expires a minute after the next settlement. The day was not restricted, the risk
  -- checks passed, and what was fired is what the tick of the queue with the intent fires.
  pub scan_fn_enqueues :
      IsSort o.by_rate
      → IsSort o.by_score
      → (st : AppState F) (i : TradeIntent F) (fires : List (TradeIntent F))
      → (scan_fn cfg e o w st).0 ≡ enqueued i fires
      → (is_restricted_day (e.clock Moment.at_restriction) ≡ false)
        × (pre_check cfg.risk e.checked ≡ PreCheckResult.passed)
        × Handed st.queue i fires
  unfolding scan_fn
  scan_fn_enqueues rates laws st i fires h =
      let last = last_call_of_cycle w (deadline cfg e o w) st.last_llm_call in
      elim (Bool-cases (is_restricted_day (e.clock Moment.at_restriction))) [
        | inl y ↦ absurd ((stops {P = λ _ _. ⊥} restricted_day st refl).holds i fires (rw y at h))
        | inr n ↦
            let (checks, handed) =
              (gates-Handed rates laws
                  (in_call_cooldown (e.clock Moment.at_cooldown) cfg.call_cooldown_secs last)
                  (is_after w && has_after_intent st.queue)
                  (record st { last_llm_call = last })).holds
                i fires (rw n at h) in
            (n, checks, handed)
      ]
