-- ===== src/Llm/ForceSl.antt =====
-- `ForceSLEngine.EvaluatePosition` of internal/llm/force_sl.go, of the reply to its message.
use Prim.Native.String.{String}
use text.Mathlib.Text.{◌==◌ as str_eq}
use binance_futures.Base.{◌≡◌, inl, inr, refl, ◌||◌, Bool-cases, true, if◌then◌else◌}

pub record ForceSlResponse : Type 0 where
  pub action : String
  pub reason : String

pub data ForceSlReply : Type 0 where
  unavailable invalid : ForceSlReply
  answered : ForceSlResponse → ForceSlReply

abbrev pub hold_for : String → ForceSlResponse
hold_for reason = record { action = "HOLD"; reason = reason }

unfoldable pub evaluate_position : ForceSlReply → ForceSlResponse
evaluate_position unavailable = hold_for "LLM unavailable"
evaluate_position invalid = hold_for "parse error"
evaluate_position (answered r) =
    if str_eq r.action "HOLD" || str_eq r.action "FORCE_CLOSE"
    then r
    else hold_for "unexpected action"

-- Only an answer with that very action closes a position.
pub evaluate_position_closes :
    (reply : ForceSlReply)
    → str_eq (evaluate_position reply).action "FORCE_CLOSE" ≡ true
    → (r : ForceSlResponse) × (reply ≡ answered r) × (str_eq r.action "FORCE_CLOSE" ≡ true)
unfolding evaluate_position
evaluate_position_closes unavailable h = cc
evaluate_position_closes invalid h = cc
evaluate_position_closes (answered r) h =
    elim (Bool-cases (str_eq r.action "HOLD" || str_eq r.action "FORCE_CLOSE")) [
      | inl y ↦ (r, refl, rw y at h)
      | inr n ↦ cc (rw n at h)
    ]
