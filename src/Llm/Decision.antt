-- ===== src/Llm/Decision.antt =====
-- `mapResponseToDecision` of internal/llm/mapper.go and `DecisionEngine.Evaluate` of
-- decision_engine.go.
use Prim.Native.String.{String, ◌++◌}
use text.Mathlib.Text.{◌==◌ as str_eq}
use text.Mathlib.TextEquality.{eq_iff}
use mathlib.Core.Path.{subst}
use binance_futures.Base.{
  ◌⊎◌, ◌≡◌, refl, ◌&&◌, not, Bool, true, false, List, [], ◌∷◌, any, arith, if◌then◌else◌,
  Bool-cases, inl, inr,
}
use binance_futures.Base.Int.{ℤ, pos, ltb_ℤ}
use binance_futures.Domain.{EntryMode, LlmDecision, ScoredCandidate}

pub record LlmResponse : Type 0 where
  pub action : String
  pub symbol : String
  pub confidence : ℤ
  pub entry_mode : String
  pub entry_reasons : List String
  pub warnings : List String
  pub skip_reason : String

-- What the call of the language model gives: an error with its text, an answer that is no JSON of a
-- response, or a response.
pub data LlmReply : Type 0 where
  unavailable : String → LlmReply
  invalid : LlmReply
  answered : LlmResponse → LlmReply

abbrev pub entry_mode_of : String → EntryMode
entry_mode_of mode =
    if str_eq mode "FRONTRUN"
    then EntryMode.frontrun
    else if str_eq mode "LAST_MINUTE"
    then EntryMode.last_minute
    else if str_eq mode "AFTER"
    then EntryMode.after
    else EntryMode.last_minute

-- A decision with no more than its action and reason.
abbrev pub skip_for : String → LlmDecision
skip_for reason = record {
  action = "SKIP";
  symbol = "";
  confidence = pos 0;
  entry_mode = EntryMode.other "";
  entry_reasons = [];
  warnings = [];
  skip_reason = reason;
}

abbrev pub is_open : LlmDecision → Bool
is_open d = str_eq d.action "OPEN_SHORT"

abbrev pub skipped_for : String → LlmDecision → LlmDecision
skipped_for reason d = record d { action = "SKIP"; skip_reason = reason }

abbrev pub decoded : LlmResponse → LlmDecision
decoded r = record {
  action = r.action;
  symbol = r.symbol;
  confidence = r.confidence;
  entry_mode = entry_mode_of r.entry_mode;
  entry_reasons = r.entry_reasons;
  warnings = r.warnings;
  skip_reason = r.skip_reason;
}

abbrev pub checked_confidence : ℤ → LlmDecision → LlmDecision
checked_confidence min_confidence d =
    if is_open d && ltb_ℤ d.confidence min_confidence
    then skipped_for "LLM confidence below threshold" d
    else d

-- The decision has the action of a response that does not open.
pub record Repeats (r : LlmReply) (d : LlmDecision) : Type 0 where
  pub response : LlmResponse
  pub reply : r ≡ answered response
  pub action : d.action ≡ response.action
  pub closed : is_open d ≡ false

module _ {F : Type 0} where
  abbrev pub among : String → List (ScoredCandidate F) → Bool
  among symbol cs = any (λ sc. str_eq sc.candidate.symbol symbol) cs

  -- `if d.Symbol == "" && len(candidates) > 0`
  abbrev pub symbol_or_first : String → List (ScoredCandidate F) → String
  symbol_or_first symbol [] = symbol
  symbol_or_first symbol (sc ∷ _) = if str_eq symbol "" then sc.candidate.symbol else symbol

  abbrev pub checked_symbol : List (ScoredCandidate F) → LlmDecision → LlmDecision
  checked_symbol cs d =
      if is_open d && not (among d.symbol cs)
      then skipped_for "LLM selected unknown symbol" d
      else d

  unfoldable pub map_response_to_decision : LlmResponse → List (ScoredCandidate F) → LlmDecision
  map_response_to_decision r cs =
      let d = checked_symbol cs (decoded r) in record d { symbol = symbol_or_first d.symbol cs }

  -- `Evaluate`, of the reply to its request.
  unfoldable pub evaluate : ℤ → List (ScoredCandidate F) → LlmReply → LlmDecision
  evaluate min_confidence cs (unavailable error) = skip_for ("LLM unavailable: " ++ error)
  evaluate min_confidence cs invalid = skip_for "LLM response invalid"
  evaluate min_confidence cs (answered r) =
      checked_confidence min_confidence (map_response_to_decision r cs)

  among-first :
      (symbol : String) (cs : List (ScoredCandidate F))
      → among symbol cs ≡ true
      → among (symbol_or_first symbol cs) cs ≡ true
  among-first symbol [] h = cc
  among-first symbol (sc ∷ cs) h = elim (Bool-cases (str_eq symbol "")) [
    | inl y ↦ rw (y, (eq_iff sc.candidate.symbol sc.candidate.symbol).1 refl) refl
    | inr n ↦ subst (λ t. among t (sc ∷ cs) ≡ true) (rw n refl) h
  ]

  -- An opening decision has passed the test of the symbol.
  checked_symbol-Among :
      (cs : List (ScoredCandidate F)) (d : LlmDecision)
      → is_open (checked_symbol cs d) ≡ true
      → (checked_symbol cs d ≡ d) × (among d.symbol cs ≡ true)
  checked_symbol-Among cs d h = elim (Bool-cases (is_open d && not (among d.symbol cs))) [
    | inl y ↦ cc (rw y at h)
    | inr n ↦ (rw n refl, ground (arith, rw n at h))
  ]

  map_response-Among :
      (r : LlmResponse) (cs : List (ScoredCandidate F))
      → is_open (map_response_to_decision r cs) ≡ true
      → among (map_response_to_decision r cs).symbol cs ≡ true
  unfolding map_response_to_decision
  map_response-Among r cs h =
      let (same, found) = checked_symbol-Among cs (decoded r) h in
      rw same (among-first r.symbol cs found)

  map_response-confidence :
      (r : LlmResponse) (cs : List (ScoredCandidate F))
      → (map_response_to_decision r cs).confidence ≡ r.confidence
  unfolding map_response_to_decision
  map_response-confidence r cs = ground arith

  map_response-action :
      (r : LlmResponse) (cs : List (ScoredCandidate F))
      → let d = map_response_to_decision r cs in (d.action ≡ "SKIP") ⊎ (d.action ≡ r.action)
  unfolding map_response_to_decision
  map_response-action r cs = elim (Bool-cases (is_open (decoded r) && not (among r.symbol cs))) [
    | inl y ↦ inl (rw y refl)
    | inr n ↦ inr (rw n refl)
  ]

  -- The decision opens, as a response asked: for a candidate, with the least confidence or more.
  pub record Opens (min_confidence : ℤ) (cs : List (ScoredCandidate F)) (r : LlmReply)
      (d : LlmDecision) : Type 0 where
    pub response : LlmResponse
    pub reply : r ≡ answered response
    pub action : d.action ≡ "OPEN_SHORT"
    pub confidence : d.confidence ≡ response.confidence
    pub enough : ltb_ℤ d.confidence min_confidence ≡ false
    pub offered : among d.symbol cs ≡ true

  checked-Opens :
      (m : ℤ) (cs : List (ScoredCandidate F)) (r : LlmResponse)
      → is_open (map_response_to_decision r cs) ≡ true
      → ltb_ℤ (map_response_to_decision r cs).confidence m ≡ false
      → Opens m cs (answered r) (map_response_to_decision r cs)
  checked-Opens m cs r h enough = record {
    response = r;
    reply = refl;
    action = (eq_iff (map_response_to_decision r cs).action "OPEN_SHORT").0 h;
    confidence = map_response-confidence r cs;
    enough = enough;
    offered = map_response-Among r cs h;
  }

  answered_outcomes :
      (m : ℤ) (cs : List (ScoredCandidate F)) (r : LlmResponse)
      → let d = checked_confidence m (map_response_to_decision r cs) in
        Opens m cs (answered r) d ⊎ ((d.action ≡ "SKIP") ⊎ Repeats (answered r) d)
  answered_outcomes m cs r =
      let d = map_response_to_decision r cs in
      elim (Bool-cases (is_open d)) [
        | inl y ↦ elim (Bool-cases (ltb_ℤ d.confidence m)) [
          | inl low ↦ rw (y, low) (inr (inl refl))
          | inr enough ↦ rw (y, enough) (inl (checked-Opens m cs r y enough))
        ]
        | inr n ↦ elim (map_response-action r cs) [
          | inl skip ↦ rw n (inr (inl skip))
          | inr same ↦
              rw n (inr (inr (record { response = r; reply = refl; action = same; closed = n })))
        ]
      ]

  -- A decision either opens, for a response that asked to, for one of the candidates and with at
  -- least the least confidence; or its action is "SKIP"; or it repeats the action of a response that
  -- does not open. So every failure of the language model gives "SKIP".
  pub evaluate-Opens :
      (min_confidence : ℤ) (cs : List (ScoredCandidate F)) (r : LlmReply)
      → let d = evaluate min_confidence cs r in
        Opens min_confidence cs r d ⊎ ((d.action ≡ "SKIP") ⊎ Repeats r d)
  unfolding evaluate
  evaluate-Opens m cs (unavailable e) = inr (inl refl)
  evaluate-Opens m cs invalid = inr (inl refl)
  evaluate-Opens m cs (answered r) = answered_outcomes m cs r
