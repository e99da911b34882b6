-- ===== src/App/Scan/Frame.antt =====
-- What `scanFn` leaves as it is.
use Prim.Native.String.{String}
use binance_futures.Base.{
  ℕ, ◌≡◌, ◌⊎◌, refl, inl, inr, Bool, Bool-cases, true, false, not, ◌&&◌, ◌||◌, Option, none, some,
  List, [], ◌∷◌, arith, take, if◌then◌else◌,
}
use binance_futures.Float64.{Float64, nought}
use binance_futures.Domain.{Balance, Candidate, IndicatorSnapshot, LlmDecision, ScoredCandidate}
use binance_futures.Execution.Engine.{read_balance}
use binance_futures.Execution.World.{World, get_balance, set_symbol_cooldown}
use binance_futures.Market.Books.{BookTicker}
use binance_futures.Risk.{PreCheckResult, pre_check}
use binance_futures.Scheduler.{WindowType}
use binance_futures.App.Asking.{
  Orders, ScanResult, after_queued, call_cooldown, early, enqueued, none_confluent, none_cool,
  none_deep, none_free, none_fresh, none_liquid, none_scanned, restricted_day, skipped, unchanged,
  unknown_symbol, unsure, act_on, ask_model, deadline, set_all_skip_cooldowns, size_selected,
}
use binance_futures.App.Filters.{filter_by_balance, filter_thin_order_book}
use binance_futures.App.Gates.{
  in_call_cooldown, is_after, last_call_of_cycle, confidence_to_size, is_skip, select,
}
use binance_futures.App.Restricted.{is_restricted_day}
use binance_futures.Intent.{has_after_intent}
use binance_futures.App.Scan.{
  checked_risk, evaluate_top, filter_all, is_early, past_gate, scan_fn, score_all, unless_empty,
}
use binance_futures.App.State.{LlmCallState, AppState, Inputs, Moment, ScanConfig}

module _ {F : Type 0} where
  -- `w` has the positions, orders and trades of `v`; at most the balance was asked for.
  pub record SameTrading (v w : World F) : Type 0 where
    pub active : w.active ≡ v.active
    pub entries : w.entries ≡ v.entries
    pub protections : w.protections ≡ v.protections
    pub kill_switch : w.kill_switch ≡ v.kill_switch
    pub daily_losses : w.daily_losses ≡ v.daily_losses
    pub trades : w.trades ≡ v.trades
    pub results : w.results ≡ v.results
    pub calls : (w.calls ≡ v.calls) ⊎ (w.calls ≡ get_balance ∷ v.calls)

  -- The language model was asked.
  abbrev pub was_asked : ScanResult F → Bool
  was_asked (skipped _) = true
  was_asked (unknown_symbol _) = true
  was_asked (unsure _) = true
  was_asked (enqueued _ _) = true
  was_asked _ = false

  -- The queue may have changed.
  abbrev pub touches_queue : ScanResult F → Bool
  touches_queue (skipped _) = true
  touches_queue (enqueued _ _) = true
  touches_queue _ = false

  pub record Kept (st : AppState F) (x : ScanResult F × AppState F) : Type 0 where
    pub trading : SameTrading st.world x.1.world
    pub queue : touches_queue x.0 ≡ false → x.1.queue ≡ st.queue
    pub cooldowns : was_asked x.0 ≡ false → x.1.world.cooldowns ≡ st.world.cooldowns

  record Near (st st' : AppState F) : Type 0 where
    trading : SameTrading st.world st'.world
    queue : st'.queue ≡ st.queue
    cooldowns : st'.world.cooldowns ≡ st.world.cooldowns

  same_self : (v : World F) → SameTrading v v
  same_self v = record {
    active = refl;
    entries = refl;
    protections = refl;
    kill_switch = refl;
    daily_losses = refl;
    trades = refl;
    results = refl;
    calls = inl refl;
  }

  ends-Kept :
      {st : AppState F} (r : ScanResult F) (st' : AppState F) → Near st st' → Kept st (r, st')
  ends-Kept r st' n = record {
    trading = n.trading;
    queue = λ _. n.queue;
    cooldowns = λ _. n.cooldowns;
  }

  unless_empty-Kept :
      {st : AppState F} {A : Type 0} (r : ScanResult F) (xs : List A) (st' : AppState F)
      (rest : ScanResult F × AppState F)
      → Near st st'
      → Kept st rest
      → Kept st (unless_empty r xs st' rest)
  unfolding unless_empty
  unless_empty-Kept r [] st' rest n k = ends-Kept r st' n
  unless_empty-Kept r (_ ∷ _) st' rest n k = k

  if-Kept :
      {st : AppState F} (b : Bool) (x y : ScanResult F × AppState F)
      → Kept st x
      → Kept st y
      → Kept st (if b then x else y)
  if-Kept true x y j k = j
  if-Kept false x y j k = k

  cooled-Same :
      (symbol : String) (d : ℕ) {v w : World F}
      → SameTrading v w
      → SameTrading v (set_symbol_cooldown symbol d w)
  cooled-Same symbol d h = record {
    active = h.active;
    entries = h.entries;
    protections = h.protections;
    kill_switch = h.kill_switch;
    daily_losses = h.daily_losses;
    trades = h.trades;
    results = h.results;
    calls = h.calls;
  }

  all_cooled-Same :
      (top : List (ScoredCandidate F × IndicatorSnapshot F)) (d : ℕ) {v w : World F}
      → SameTrading v w
      → SameTrading v (set_all_skip_cooldowns d top w)
  all_cooled-Same [] d h = h
  all_cooled-Same ((sc, _) ∷ rest) d h =
      all_cooled-Same rest d (cooled-Same sc.candidate.symbol d h)

module _ {F : Type 0} ⦃f : Float64 F⦄ (cfg : ScanConfig F) (e : Inputs F) (o : Orders F)
    (w : WindowType) where
  open f use {le}

  size_selected-Kept :
      {st : AppState F} (d : LlmDecision) (found : Option (ScoredCandidate F × IndicatorSnapshot F))
      (st' : AppState F)
      → SameTrading st.world st'.world
      → st'.queue ≡ st.queue
      → Kept st (size_selected cfg e o w d found st')
  size_selected-Kept d none st' t q = record { trading = t; queue = λ _. q; cooldowns = λ h. cc }
  size_selected-Kept d (some (sc, ind)) st' t q =
      if-Kept (le (confidence_to_size d.confidence cfg.books.position_size_pct) nought) _ _
        (record { trading = t; queue = λ _. q; cooldowns = λ h. cc })
        (record { trading = t; queue = λ h. cc; cooldowns = λ h. cc })

  act_on-Kept :
      {st : AppState F} (d : LlmDecision) (top : List (ScoredCandidate F × IndicatorSnapshot F))
      (st' : AppState F)
      → Near st st'
      → Kept st (act_on cfg e o w d top st')
  unfolding act_on
  act_on-Kept {st} d top st' n =
      if-Kept (is_skip d) _ _
        (record { trading = all_cooled-Same top _ n.trading; queue = λ h. cc; cooldowns = λ h. cc })
        (size_selected-Kept d (select d.symbol top) _ (cooled-Same d.symbol _ n.trading) n.queue)

  ask_model-Kept :
      {st : AppState F} (top : List (ScoredCandidate F × IndicatorSnapshot F)) (st' : AppState F)
      → Near st st'
      → Kept st (ask_model cfg e o w top st')
  unfolding ask_model
  ask_model-Kept top st' n =
      act_on-Kept _ top _ (record { trading = n.trading; queue = n.queue; cooldowns = n.cooldowns })

  evaluate_top-Kept :
      {st : AppState F} (top : List (ScoredCandidate F × IndicatorSnapshot F)) (st' : AppState F)
      → Near st st'
      → Kept st (evaluate_top cfg e o w top st')
  unfolding evaluate_top
  evaluate_top-Kept top st' n =
      if-Kept _ (unchanged, st') _ (ends-Kept unchanged st' n)
        (ask_model-Kept (take cfg.top_candidates top) st' n)

  past_gate-Kept :
      {st : AppState F} (cs : List (Candidate F)) (st' : AppState F)
      → Near st st'
      → Kept st (past_gate cfg e o w cs st')
  unfolding past_gate score_all
  past_gate-Kept cs st' n =
      if-Kept (is_early cfg e o w) (early, st') _ (ends-Kept early st' n)
        (unless_empty-Kept none_fresh _ st' _ n
          (unless_empty-Kept none_confluent _ st' _ n (evaluate_top-Kept _ st' n)))

  filter_by_balance-world :
      (b : Option (Balance F)) (cs : List (Candidate F)) (books : String → Option (BookTicker F))
      (v : World F)
      → (filter_by_balance cfg e b cs books v).2 ≡ v
  filter_by_balance-world none cs books v = refl
  filter_by_balance-world (some b) cs books v = refl

  read_balance-Near :
      (v : World F)
      → SameTrading v (read_balance cfg.execution e.exchange v).1
        × ((read_balance cfg.execution e.exchange v).1.cooldowns ≡ v.cooldowns)
  read_balance-Near v = ground arith

  filter_thin-Same :
      (cs : List (Candidate F)) (books : String → Option (BookTicker F)) (v : World F)
      → SameTrading v (filter_thin_order_book cfg e cs books v).2
        × ((filter_thin_order_book cfg e cs books v).2.cooldowns ≡ v.cooldowns)
  unfolding filter_thin_order_book
  filter_thin-Same cs books v = elim (Bool-cases (not cfg.books.enabled || not e.has_book_cache)) [
    | inl y ↦ rw y (same_self v, refl)
    | inr n ↦
        let (b, v') = read_balance cfg.execution e.exchange v in
        rw n (rw (filter_by_balance-world b cs books v') (read_balance-Near v))
  ]

  -- The state of a scan that has forgotten the last call of an earlier cycle.
  module _ (st : AppState F) (last : Option (LlmCallState F)) where
    start-Near : Near st (record st { last_llm_call = last })
    start-Near = record { trading = same_self st.world; queue = refl; cooldowns = refl }

    filter_thin-Near :
        (cs : List (Candidate F)) (books : String → Option (BookTicker F))
        → Near st (record st {
          last_llm_call = last;
          books = books;
          world = (filter_thin_order_book cfg e cs st.books st.world).2;
        })
    filter_thin-Near cs books =
        let (same, cool) = filter_thin-Same cs st.books st.world in
        record { trading = same; queue = refl; cooldowns = cool }

    filter_all-Kept : Kept st (filter_all cfg e o w (record st { last_llm_call = last }))
    unfolding filter_all
    filter_all-Kept = unless_empty-Kept none_scanned _ _ _ start-Near (
        unless_empty-Kept none_free _ _ _ start-Near (
          unless_empty-Kept none_cool _ _ _ start-Near (
            unless_empty-Kept none_liquid _ _ _ start-Near (
              unless_empty-Kept none_deep _ _ _ (filter_thin-Near _ _)
                (past_gate-Kept _ _ (filter_thin-Near _ _))))))

    checked_risk-Kept :
        (r : PreCheckResult)
        → Kept st (checked_risk cfg e o w r (record st { last_llm_call = last }))
    checked_risk-Kept PreCheckResult.passed = filter_all-Kept
    checked_risk-Kept PreCheckResult.kill_switch_error = ends-Kept _ _ start-Near
    checked_risk-Kept PreCheckResult.kill_switch_active = ends-Kept _ _ start-Near
    checked_risk-Kept PreCheckResult.positions_error = ends-Kept _ _ start-Near
    checked_risk-Kept PreCheckResult.max_positions = ends-Kept _ _ start-Near
    checked_risk-Kept PreCheckResult.daily_loss_limit = ends-Kept _ _ start-Near

  -- But for what the fired intents do, a scan changes no position, pending entry, protection or trade
  -- and sends no order: at most it asks for the balance. The queue stays as it is unless the language
  -- model skipped or an intent was enqueued, and no cooldown is set unless the model was asked.
  pub scan_fn-Kept : (st : AppState F) → Kept st (scan_fn cfg e o w st)
  unfolding scan_fn
  scan_fn-Kept st =
      let last = last_call_of_cycle w (deadline cfg e o w) st.last_llm_call in
      if-Kept (is_restricted_day (e.clock Moment.at_restriction)) (restricted_day, st) _
        (ends-Kept restricted_day st (start-Near st st.last_llm_call))
        (if-Kept (in_call_cooldown (e.clock Moment.at_cooldown) cfg.call_cooldown_secs last)
          (call_cooldown, _) _ (ends-Kept call_cooldown _ (start-Near st last))
          (if-Kept (is_after w && has_after_intent st.queue) (after_queued, _) _
            (ends-Kept after_queued _ (start-Near st last))
            (checked_risk-Kept st last (pre_check cfg.risk e.checked))))
