-- ===== src/Scoring/Candles.antt =====
-- internal/scoring/scorer.go: `buildCandleMaps` and `scoreCandlePatterns`. A map is a function that
-- answers 0 on a missing key; `visit` is the order in which `range` goes through the timeframes with
-- a signal, which Go leaves open.
use Prim.Native.Char.{code}
use Prim.Native.String.{String, [] as no_text, ◌∷◌ as then_char}
use text.Mathlib.Text.{◌==◌ as str_eq}
use binance_futures.Base.{
  ◌+◌, ◌*◌, Bool, true, false, length, List, [], ◌∷◌, ◌&&◌, ◌==◌, any, if◌then◌else◌,
}
use binance_futures.Base.Int.{ℤ, pos, pos_part, neg_part, sub_ℕ}
use binance_futures.Float64.{Float64, nought}
use binance_futures.Domain.{CandlePattern, CandleSignal, CandleWeight, PatternStrength, Timeframe}
use binance_futures.Scoring.{same_timeframe}

-- `n*10 + int(r-'0')`, for every character of a label, without wrapping.
abbrev pub label_number : ℤ → String → ℤ
label_number n no_text = n
label_number n (then_char c label) =
    label_number (sub_ℕ (10 * pos_part n + code c) (10 * neg_part n + 48)) label

abbrev pub int_eq : ℤ → ℤ → Bool
int_eq a b = (pos_part a == pos_part b) && (neg_part a == neg_part b)

abbrev pub timeframe_text : Timeframe → String
timeframe_text Timeframe.m5 = "5m"
timeframe_text Timeframe.m15 = "15m"
timeframe_text Timeframe.m30 = "30m"
timeframe_text Timeframe.h1 = "1h"
timeframe_text Timeframe.h4 = "4h"
timeframe_text Timeframe.d1 = "1d"

abbrev pub strength_text : PatternStrength → String
strength_text PatternStrength.strong = "STRONG"
strength_text PatternStrength.medium = "MEDIUM"
strength_text PatternStrength.weak = "WEAK"

-- `tfHit` after a signal of a timeframe.
abbrev pub note_hit : Timeframe → List Timeframe → List Timeframe
note_hit t hit = if any (same_timeframe t) hit then hit else t ∷ hit

abbrev pub hit_of : List CandleSignal → List Timeframe → List Timeframe
hit_of [] hit = hit
hit_of (sig ∷ rest) hit = hit_of rest (note_hit sig.timeframe hit)

-- The flags of the loop.
abbrev pub shows_failed_breakout : CandleSignal → Bool
shows_failed_breakout sig = elim sig.pattern_seen [
  | CandlePattern.failed_breakout ↦ true
  | _ ↦ false
]

abbrev pub shows_upper_wick_reject : CandleSignal → Bool
shows_upper_wick_reject sig = elim sig.pattern_seen [
  | CandlePattern.upper_wick_reject ↦ true
  | _ ↦ false
]

abbrev pub shows_liquidity_sweep : CandleSignal → Bool
shows_liquidity_sweep sig = elim sig.pattern_seen [
  | CandlePattern.liquidity_sweep ↦ true
  | _ ↦ false
]

abbrev pub shows_bearish_engulfing : CandleSignal → Bool
shows_bearish_engulfing sig = elim sig.pattern_seen [
  | CandlePattern.bearish_engulfing ↦ true
  | _ ↦ false
]

pub record CandleMaps (F : Type 0) : Type 0 where
  pub tf_weights : String → F
  pub str_weights : String → F
  pub multitf_bonus : ℤ → F

module _ {F : Type 0} ⦃f : Float64 F⦄ where
  open f use {lit, add, sub, mul, div, lt, le, eq}

  abbrev pub note_weight : CandleWeight F → CandleMaps F → CandleMaps F
  note_weight cw m =
      if str_eq cw.type "timeframe"
      then record m { tf_weights = λ k. if str_eq k cw.label then cw.weight else m.tf_weights k }
      else if str_eq cw.type "strength"
      then record m { str_weights = λ k. if str_eq k cw.label then cw.weight else m.str_weights k }
      else if str_eq cw.type "multitf_bonus"
      then record m {
        multitf_bonus =
            λ k. if int_eq k (label_number (pos 0) cw.label) then cw.weight else m.multitf_bonus k;
      }
      else m

  abbrev pub note_weights : List (CandleWeight F) → CandleMaps F → CandleMaps F
  note_weights [] m = m
  note_weights (cw ∷ rest) m = note_weights rest (note_weight cw m)

  abbrev pub build_candle_maps : List (CandleWeight F) → CandleMaps F
  build_candle_maps weights =
      note_weights weights (record {
        tf_weights = λ _. nought;
        str_weights = λ _. nought;
        multitf_bonus = λ _. nought;
      })

  -- A pattern without an entry weighs 0.
  abbrev pub bearish_pattern_weight : CandlePattern → F
  bearish_pattern_weight CandlePattern.upper_wick_reject = lit (pos 20) 1
  bearish_pattern_weight CandlePattern.doji_after_pump = lit (pos 15) 1
  bearish_pattern_weight CandlePattern.failed_breakout = lit (pos 30) 1
  bearish_pattern_weight CandlePattern.shooting_star = lit (pos 30) 1
  bearish_pattern_weight CandlePattern.bearish_engulfing = lit (pos 40) 1
  bearish_pattern_weight CandlePattern.evening_star = lit (pos 50) 1
  bearish_pattern_weight CandlePattern.break_structure = lit (pos 60) 1
  bearish_pattern_weight CandlePattern.liquidity_sweep = lit (pos 60) 1
  bearish_pattern_weight _ = nought

  abbrev pub raw_score : CandleMaps F → F → List CandleSignal → F
  raw_score m raw [] = raw
  raw_score m raw (sig ∷ rest) =
      raw_score m
        (add raw (
          mul
            (mul (bearish_pattern_weight sig.pattern_seen)
              (m.tf_weights (timeframe_text sig.timeframe)))
            (m.str_weights (strength_text sig.strength))))
        rest

  -- The synergy bonuses.
  abbrev pub with_synergy : List CandleSignal → F → F
  with_synergy signals raw =
      let once =
        if any shows_failed_breakout signals && any shows_upper_wick_reject signals
        then mul raw (lit (pos 120) 2)
        else raw in
      if any shows_liquidity_sweep signals && any shows_bearish_engulfing signals
      then mul once (lit (pos 120) 2)
      else once

  abbrev pub max_raw : CandleMaps F → F → List Timeframe → F
  max_raw m sum [] = sum
  max_raw m sum (t ∷ rest) =
      max_raw m
        (add sum (mul (mul (lit (pos 60) 1) (m.tf_weights (timeframe_text t))) (lit (pos 15) 1)))
        rest

  abbrev pub at_most : F → F → F
  at_most cap x = if lt cap x then cap else x

  -- The part after the sums.
  abbrev pub normalized_score : F → F → F → F → F
  normalized_score raw top bonus max_score =
      if eq top nought
      then nought
      else at_most max_score (mul (add (at_most (lit (pos 1) 0) (div raw top)) bonus) max_score)

  module _ (visit : List Timeframe → List Timeframe) where
    unfoldable pub score_candle_patterns : List CandleSignal → F → CandleMaps F → F
    score_candle_patterns [] max_score m = nought
    score_candle_patterns (sig ∷ rest) max_score m =
        let hit = hit_of (sig ∷ rest) [] in
        normalized_score (with_synergy (sig ∷ rest) (raw_score m nought (sig ∷ rest)))
          (max_raw m nought (visit hit)) (m.multitf_bonus (pos (length hit))) max_score
