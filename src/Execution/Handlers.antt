-- ===== src/Execution/Handlers.antt =====
-- internal/execution/intent_handler.go and after_strategy.go: what stands between a fired intent and
-- the execution engine. The BTC context at fire time, the price and what the engine reads are
-- arguments. Log lines and durations are left out.
use binance_futures.Base.{
  ◌⊎◌, ◌≡◌, ◌≢◌, refl, Bool, true, false, not, ◌&&◌, ◌||◌, ℕ, Option, none, some, ◌∷◌,
  if◌then◌else◌, inl, inr, arith,
}
use binance_futures.Base.Int.{ℤ, pos}
use binance_futures.Float64.{Float64, nought, hundred}
use binance_futures.Domain.{Balance, BtcContext, EntryMode, LlmDecision, ScoredCandidate}
use binance_futures.Risk.{RiskConfig, Evaluation, evaluate_candidate}
use binance_futures.Execution.World.{Config, Exchange, World, set_leverage}
use binance_futures.Execution.Engine.{Order, Outcome, execute}

-- What the engine reads of the market, the clock and the UUID source.
pub record Readings (F : Type 0) : Type 0 where
  pub now : ℕ
  pub trade_id : ℕ
  pub funding_rate : F
  pub price : F
  pub finalized_at : ℕ

-- How a handler ends: a skip before the engine, or the engine's answer.
pub data Fired : Type 0 where
  score_too_low_to_fire price_moved : Fired
  refused_by_risk : Evaluation → Fired
  executed : Outcome → Fired

-- The settings of `AfterExecutionConfig` that the depth sizing reads.
pub record DepthConfig (F : Type 0) : Type 0 where
  pub full_size_depth_multiplier : F
  pub min_bid_depth_multiplier : F
  pub reduced_size_pct : F

abbrev pub is_last_minute : EntryMode → Bool
is_last_minute EntryMode.last_minute = true
is_last_minute _ = false

-- `entryModeToWindow` and back: any other mode is LAST_MINUTE.
abbrev pub window_mode : EntryMode → EntryMode
window_mode (EntryMode.other _) = EntryMode.last_minute
window_mode mode = mode

module _ {F : Type 0} ⦃f : Float64 F⦄ where
  open f use {lit, of_int, sub, mul, div, neg, abs, lt, le, eq}

  -- `ExecuteScoredWithLLM`.
  abbrev pub order_of : ScoredCandidate F → LlmDecision → Readings F → Order F
  order_of sc d r = record {
    scored = sc;
    entry_mode = window_mode d.entry_mode;
    position_size_pct = sc.position_size_pct;
    confidence = d.confidence;
    llm_decision = some d;
    now = r.now;
    trade_id = r.trade_id;
    funding_rate = r.funding_rate;
    price = r.price;
    finalized_at = r.finalized_at;
  }

  -- The price moved by more than twice the expected dump: the error of `validateEntry`.
  abbrev pub dumped : F → F → Bool
  dumped delta_pct funding_rate =
      let max_expected = mul (abs funding_rate) (lit (pos 200) 0) in
      not (lt nought delta_pct) && lt nought max_expected && lt delta_pct (neg max_expected)

  -- `validateEntry`: true is nil.
  unfoldable pub validate_entry : ScoredCandidate F → F → Bool
  validate_entry sc price =
      let decided = sc.candidate.mark_price in
      if eq decided nought
      then true
      else not (dumped (mul (div (sub price decided) decided) hundred) sc.candidate.funding_rate)

  -- The market's price, or the decision's if it is unknown or 0.
  abbrev pub current_price : ScoredCandidate F → Option F → F
  current_price sc none = sc.candidate.mark_price
  current_price sc (some price) = if eq price nought then sc.candidate.mark_price else price

  -- The size for a book of this depth; 0 is too thin.
  abbrev pub size_for : DepthConfig F → F → F → F → F
  size_for a requested desired depth =
      if le (mul a.full_size_depth_multiplier desired) depth
      then requested
      else if le (mul (lit (pos 15) 1) desired) depth
      then mul requested (lit (pos 75) 2)
      else if le (mul a.min_bid_depth_multiplier desired) depth
      then mul requested (div a.reduced_size_pct hundred)
      else nought

  -- `adjustSizeForDepth`, of the answers to `GetAccountBalance` and `BidDepthUSDT`.
  pub adjust_size_for_depth : DepthConfig F → ℤ → Option (Balance F) → Option F → F → F
  adjust_size_for_depth a leverage (some b) (some depth) requested =
      if eq b.available_balance nought || eq depth nought
      then requested
      else size_for a requested
          (mul (div (mul b.available_balance requested) hundred) (of_int leverage)) depth
  adjust_size_for_depth a leverage _ _ requested = requested

  module _ (c : Config F) (x : Exchange F) (risk : RiskConfig F) (r : Readings F) where
    abbrev pub hand_over : ScoredCandidate F → LlmDecision → World F → Fired × World F
    hand_over sc d w = let (o, w') = execute c x (order_of sc d r) w in (Fired.executed o, w')

    -- The risk gate of both handlers.
    abbrev pub gated : Evaluation → Fired × World F → World F → Fired × World F
    gated Evaluation.accepted next w = next
    gated refused next w = (Fired.refused_by_risk refused, w)

    -- `IntentHandler.Fire`. A refused `SetLeverage` is only logged.
    unfoldable pub fire :
        F → ScoredCandidate F → LlmDecision → Option (BtcContext F) → World F → Fired × World F
    fire min_score sc d btc w =
        if is_last_minute d.entry_mode && lt sc.composite_score min_score
        then (Fired.score_too_low_to_fire, w)
        else gated (evaluate_candidate risk sc btc)
            (hand_over sc d
              (record w { calls = set_leverage sc.candidate.symbol c.leverage ∷ w.calls }))
            w

    -- `AfterExecutionStrategy.Execute`. The sizing by depth is commented out there.
    unfoldable pub execute_after :
        Option F
        → ScoredCandidate F
        → LlmDecision
        → Option (BtcContext F)
        → World F
        → Fired × World F
    execute_after price sc d btc w =
        if not (validate_entry sc (current_price sc price))
        then (Fired.price_moved, w)
        else gated (evaluate_candidate risk sc btc) (hand_over sc d w) w

    -- What a placed order has passed: `executed` of an order is not the answer of a refused gate.
    gated-executed :
        (e : Evaluation) (next : Fired × World F) (w : World F) (o : Outcome)
        → (gated e next w).0 ≡ Fired.executed o
        → e ≡ Evaluation.accepted
    gated-executed Evaluation.accepted next w o h = refl
    gated-executed Evaluation.score_too_low next w o h = absurd (ground (arith, h))
    gated-executed Evaluation.atr_too_high next w o h = absurd (ground (arith, h))
    gated-executed Evaluation.btc_breakout next w o h = absurd (ground (arith, h))

    unless-executed :
        (b : Bool) (skipped next : Fired × World F) (o : Outcome)
        → skipped.0 ≢ Fired.executed o
        → (if b then skipped else next).0 ≡ Fired.executed o
        → next.0 ≡ Fired.executed o
    unless-executed true skipped next o n h = absurd (n h)
    unless-executed false skipped next o n h = h

    -- Whichever handler fires an intent, the engine is reached only after the risk engine has accepted
    -- the candidate under the BTC context of fire time.
    pub fire_executed :
        (min_score : F) (price : Option F) (sc : ScoredCandidate F) (d : LlmDecision)
        (btc : Option (BtcContext F)) (w : World F) (o : Outcome)
        → ((fire min_score sc d btc w).0 ≡ Fired.executed o)
          ⊎ ((execute_after price sc d btc w).0 ≡ Fired.executed o)
        → evaluate_candidate risk sc btc ≡ Evaluation.accepted
    unfolding fire execute_after
    fire_executed min_score price sc d btc w o (inl h) =
        let verdict = evaluate_candidate risk sc btc in
        let w' = record w { calls = set_leverage sc.candidate.symbol c.leverage ∷ w.calls } in
        gated-executed verdict (hand_over sc d w') w o (
          unless-executed (is_last_minute d.entry_mode && lt sc.composite_score min_score)
            (Fired.score_too_low_to_fire, w) (gated verdict (hand_over sc d w') w) o
            (λ e. ground (arith, e)) h)
    fire_executed min_score price sc d btc w o (inr h) =
        let verdict = evaluate_candidate risk sc btc in
        gated-executed verdict (hand_over sc d w) w o (
          unless-executed (not (validate_entry sc (current_price sc price))) (Fired.price_moved, w)
            (gated verdict (hand_over sc d w) w) o (λ e. ground (arith, e)) h)
