-- ===== src/App/Gates.antt =====
-- The gates of `scanFn` after the scoring, its choice among the candidates, and `confidenceToSize` of
-- internal/app/helpers.go. A candidate stands with its snapshot.
use Prim.Native.String.{String}
use text.Mathlib.Text.{◌==◌ as str_eq}
use binance_futures.Base.{
  ℕ, ◌+◌, ◌*◌, ◌/◌, suc, Bool, true, false, not, ◌&&◌, ◌||◌, Option, none, some, List, [], ◌∷◌,
  ◌==◌, if◌then◌else◌,
}
use binance_futures.Base.Int.{ℤ, pos, negsuc, pos_part, sub_ℕ, ltb_ℤ, leb_ℤ}
use binance_futures.Float64.{Float64, nought}
use binance_futures.Domain.{BtcContext, IndicatorSnapshot, LlmDecision, ScoredCandidate}
use binance_futures.Llm.{LlmPriorContext, trend_text}
use binance_futures.Scheduler.{WindowType, minute, second, next_funding_time}
use binance_futures.App.State.{LlmCallState}

abbrev pub is_frontrun : WindowType → Bool
is_frontrun WindowType.frontrun = true
is_frontrun _ = false

abbrev pub is_after : WindowType → Bool
is_after WindowType.after = true
is_after _ = false

abbrev pub same_window : WindowType → WindowType → Bool
same_window WindowType.frontrun WindowType.frontrun = true
same_window WindowType.last_minute WindowType.last_minute = true
same_window WindowType.after WindowType.after = true
same_window WindowType.closed WindowType.closed = true
same_window _ _ = false

abbrev pub window_text : WindowType → String
window_text WindowType.frontrun = "FRONTRUN"
window_text WindowType.last_minute = "LAST_MINUTE"
window_text WindowType.after = "AFTER"
window_text WindowType.closed = ""

-- `symbolCooldownDurationLLM`
abbrev pub llm_cooldown : ℕ
llm_cooldown = 10 * minute

-- The longer of a duration, which may be negative, and the least one.
abbrev pub at_least : ℕ → ℤ → ℕ
at_least least d = if ltb_ℤ d (pos least) then least else pos_part d

-- `int(d.Minutes())`, which cuts towards 0.
abbrev pub whole_minutes : ℤ → ℤ
whole_minutes (pos n) = pos (n / minute)
whole_minutes (negsuc n) = sub_ℕ 0 (suc n / minute)

-- `until_at` is the second reading of the clock.
abbrev pub skip_cooldown_until_next_window : WindowType → ℕ → ℕ → ℕ
skip_cooldown_until_next_window WindowType.frontrun now until_at =
    at_least minute (sub_ℕ (next_funding_time now) (until_at + 6 * minute))
skip_cooldown_until_next_window WindowType.last_minute now until_at =
    at_least (30 * second) (sub_ℕ (next_funding_time now) until_at)
skip_cooldown_until_next_window _ now until_at = llm_cooldown

abbrev pub is_skip : LlmDecision → Bool
is_skip d = str_eq d.action "SKIP"

abbrev pub symbol_cooldown_for : String → ℕ
symbol_cooldown_for decision =
    if str_eq decision "SKIP" then llm_cooldown else llm_cooldown + 10 * minute

abbrev pub build_prior_reasons : LlmDecision → List String
build_prior_reasons d =
    if is_skip d
    then (if str_eq d.skip_reason "" then [] else d.skip_reason ∷ [])
    else d.entry_reasons

module _ {F : Type 0} where
  -- The reset at the start of a scan in FRONTRUN.
  abbrev pub last_call_of_cycle : WindowType → ℕ → Option (LlmCallState F) → Option (LlmCallState F)
  last_call_of_cycle w deadline none = none
  last_call_of_cycle w deadline (some lc) =
      if is_frontrun w && not (lc.cycle_deadline == deadline) then none else some lc

  abbrev pub in_call_cooldown : ℕ → ℕ → Option (LlmCallState F) → Bool
  in_call_cooldown now secs none = false
  in_call_cooldown now secs (some lc) = ltb_ℤ (sub_ℕ now lc.called_at) (pos (secs * second))

  abbrev pub trend_of : Option (BtcContext F) → String
  trend_of none = ""
  trend_of (some b) = trend_text b.trend

  abbrev pub prior_context : ℕ → ℕ → Option (LlmCallState F) → Option LlmPriorContext
  prior_context deadline now none = none
  prior_context deadline now (some lc) =
      if (lc.cycle_deadline == deadline) && not (str_eq lc.prior_action "")
      then some (record {
        window = window_text lc.window;
        action = lc.prior_action;
        reasons = lc.prior_reasons;
        warnings = lc.prior_warnings;
        age_mins = whole_minutes (sub_ℕ now lc.called_at);
      })
      else none

  -- The first candidate of the symbol.
  abbrev pub select :
      String
      → List (ScoredCandidate F × IndicatorSnapshot F)
      → Option (ScoredCandidate F × IndicatorSnapshot F)
  select symbol [] = none
  select symbol ((sc, ind) ∷ rest) =
      if str_eq sc.candidate.symbol symbol then some (sc, ind) else select symbol rest

module _ {F : Type 0} ⦃f : Float64 F⦄ where
  open f use {lit, sub, mul, abs, lt, le}

  -- The score of the last candidate of the symbol.
  abbrev pub selected_score : F → String → List (ScoredCandidate F × IndicatorSnapshot F) → F
  selected_score score symbol [] = score
  selected_score score symbol ((sc, _) ∷ rest) =
      selected_score (if str_eq symbol sc.candidate.symbol then sc.composite_score else score)
        symbol rest

  -- The stale-reversal gate.
  abbrev pub is_fresh : ScoredCandidate F × IndicatorSnapshot F → Bool
  is_fresh (sc, ind) = not (lt ind.rsi7_5m (lit (pos 35) 0))

  -- The confluence gate.
  abbrev pub has_reversal_evidence : ScoredCandidate F × IndicatorSnapshot F → Bool
  has_reversal_evidence (sc, ind) =
      le (lit (pos 47) 0) sc.composite_score
      && (lt nought sc.breakdown.rsi_divergence_score
          || (lt nought sc.breakdown.candle_score || le (lit (pos 50) 0) ind.rsi7_5m))

  abbrev pub higher_score :
      ScoredCandidate F × IndicatorSnapshot F → ScoredCandidate F × IndicatorSnapshot F → Bool
  higher_score a b = lt b.0.composite_score a.0.composite_score

  -- `inputsUnchanged`, of the first candidate: there is one, since `TopCandidates` is not 0.
  abbrev pub inputs_unchanged :
      WindowType
      → String
      → Option (LlmCallState F)
      → List (ScoredCandidate F × IndicatorSnapshot F)
      → Bool
  inputs_unchanged w trend none top = false
  inputs_unchanged w trend (some lc) [] = false
  inputs_unchanged w trend (some lc) ((sc, _) ∷ _) =
      same_window lc.window w
      && (lt (abs (sub lc.score sc.composite_score)) (lit (pos 5) 1) && str_eq lc.btc_trend trend)

  unfoldable pub confidence_to_size : ℤ → F → F
  confidence_to_size confidence max_size_pct =
      if leb_ℤ (pos 75) confidence
      then max_size_pct
      else if leb_ℤ (pos 70) confidence
      then mul (lit (pos 75) 2) max_size_pct
      else if leb_ℤ (pos 65) confidence
      then mul (lit (pos 5) 1) max_size_pct
      else nought
