-- ===== src/Risk.antt =====
-- internal/risk: the checks before a trade (engine.go) and the drawdown (drawdown.go). The cache and
-- its errors are arguments; notifications are not part of the state.
pub mod Checks
mod Tests
use binance_futures.Base.{
  ℕ, Bool, true, false, not, ◌&&◌, ◌||◌, Option, none, some, List, [], ◌∷◌, length, leb,
  if◌then◌else◌, map,
}
use Prim.Native.String.{String}
use binance_futures.Float64.{Float64, nought, hundred}
use binance_futures.Domain.{Position, ScoredCandidate, BtcContext, Trend}

-- `Config`, with the parameters that the checks read.
pub record RiskConfig (F : Type 0) : Type 0 where
  pub max_daily_losses : ℕ
  pub max_atr_ratio : F
  pub btc_breakout_reject : Bool
  pub min_composite_score : F
  pub min_score_override : F
  pub max_positions : ℕ

-- What the state cache answers; `none` is an error.
pub record CacheAnswers (F : Type 0) : Type 0 where
  pub kill_switch : Option Bool
  pub active_positions : Option (List (Position F))
  pub daily_loss_count : Option ℕ

-- The result of `PreCheck`.
pub data PreCheckResult : Type 0 where
  passed kill_switch_error kill_switch_active positions_error max_positions daily_loss_limit :
      PreCheckResult

-- The result of `EvaluateCandidate`.
pub data Evaluation : Type 0 where
  accepted score_too_low atr_too_high btc_breakout : Evaluation

pub record DrawdownTracker (F : Type 0) : Type 0 where
  pub peak_balance : F
  pub current_balance : F

abbrev is_bullish : Trend → Bool
is_bullish Trend.bullish = true
is_bullish _ = false

module _ {F : Type 0} where
  -- An unreadable count passes.
  abbrev check_losses : RiskConfig F → Option ℕ → PreCheckResult
  check_losses c none = passed
  check_losses c (some n) = if leb c.max_daily_losses n then daily_loss_limit else passed

  abbrev check_positions :
      RiskConfig F → CacheAnswers F → Option (List (Position F)) → PreCheckResult
  check_positions c a none = positions_error
  check_positions c a (some ps) =
      if leb c.max_positions (length ps) then max_positions else check_losses c a.daily_loss_count

  abbrev check_kill_switch : RiskConfig F → CacheAnswers F → Option Bool → PreCheckResult
  check_kill_switch c a none = kill_switch_error
  check_kill_switch c a (some true) = kill_switch_active
  check_kill_switch c a (some false) = check_positions c a a.active_positions

  unfoldable pub pre_check : RiskConfig F → CacheAnswers F → PreCheckResult
  pre_check c a = check_kill_switch c a a.kill_switch

  abbrev pub active_symbols : CacheAnswers F → Option (List String)
  active_symbols a = elim a.active_positions [
    | none ↦ none
    | some ps ↦ some (map (λ p. p.symbol) ps)
  ]

module _ {F : Type 0} ⦃f : Float64 F⦄ where
  open f use {sub, mul, div, lt, le, eq}

  abbrev pub too_low : RiskConfig F → F → Bool
  too_low c score =
      lt score c.min_composite_score
      && not (lt nought c.min_score_override && le c.min_score_override score)

  abbrev pub too_volatile : RiskConfig F → ScoredCandidate F → Bool
  too_volatile c sc = elim sc.indicators [
    | none ↦ false
    | some ind ↦ lt c.max_atr_ratio ind.atr_ratio
  ]

  abbrev pub breaks_out : RiskConfig F → Option (BtcContext F) → Bool
  breaks_out c none = false
  breaks_out c (some b) = c.btc_breakout_reject && b.is_breakout && is_bullish b.trend

  unfoldable pub evaluate_candidate :
      RiskConfig F → ScoredCandidate F → Option (BtcContext F) → Evaluation
  evaluate_candidate c sc btc =
      if too_low c sc.composite_score
      then score_too_low
      else if too_volatile c sc
      then atr_too_high
      else if breaks_out c btc
      then btc_breakout
      else accepted

  abbrev pub new_drawdown_tracker : F → DrawdownTracker F
  new_drawdown_tracker balance = record { peak_balance = balance; current_balance = balance }

  unfoldable pub update : F → DrawdownTracker F → DrawdownTracker F
  update balance d = record {
    peak_balance = if lt d.peak_balance balance then balance else d.peak_balance;
    current_balance = balance;
  }

  pub current_drawdown_pct : DrawdownTracker F → F
  current_drawdown_pct d =
      if eq d.peak_balance nought
      then nought
      else mul (div (sub d.peak_balance d.current_balance) d.peak_balance) hundred

  -- The tracker after a sequence of balances.
  abbrev pub track : List F → DrawdownTracker F → DrawdownTracker F
  unfolding update
  track [] d = d
  track (b ∷ bs) d = track bs (update b d)
