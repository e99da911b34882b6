-- ===== src/Llm/Tests.antt =====
-- Examples for the verdicts of the language model.
use binance_futures.Scheduler.{minute}
use binance_futures.Llm.Client.{
  CallResult, ClientConfig, failed, new_client, calls, refills, call, allow, refilled, attempt,
  refill_of,
}
use binance_futures.Llm.Client.Limits.{IsBounded, calls-IsBounded}
use binance_futures.Base.{ℕ, ◌+◌, ◌*◌, ◌≤◌, arith, length, ◌≡◌, refl, List, [], ◌∷◌}
use binance_futures.Base.Int.{ℤ, pos}
use binance_futures.Domain.{ScoredCandidate}
use binance_futures.Float64.Fixed.{fixed}
use binance_futures.Samples.{candidate}
use binance_futures.Base.{◌⊎◌}
use binance_futures.Llm.Decision.{Opens, Repeats, LlmResponse, answered, evaluate, evaluate-Opens}

abbrev offered : List (ScoredCandidate ℤ)
offered = candidate "BTCUSDT" 80 ∷ candidate "ETHUSDT" 70 ∷ []

abbrev response : LlmResponse
response = record {
  action = "OPEN_SHORT";
  symbol = "ETHUSDT";
  confidence = pos 72;
  entry_mode = "AFTER";
  entry_reasons = [];
  warnings = [];
  skip_reason = "";
}

evaluate-Opens_example :
    let d = evaluate (pos 65) offered (answered response) in
    Opens (pos 65) offered (answered response) d
    ⊎ ((d.action ≡ "SKIP") ⊎ Repeats (answered response) d)
evaluate-Opens_example = evaluate-Opens (pos 65) offered (answered response)

-- One token a minute and a retry, of a model that always fails.
abbrev limits : ClientConfig
limits = record { timeout = 45; retry_count = pos 1; max_rpm = 1 }

abbrev down : List ℕ → ℕ → CallResult
down sent timeout = failed "timeout"

calls-IsBounded_example :
    let c = new_client limits 0 in
    let c' = calls ℤ limits down (0 ∷ minute ∷ []) c in
    IsBounded ℤ c'.limiter
    × (length c'.sent + 2 * c'.limiter.tokens
        ≤ length c.sent + 2 * (c.limiter.tokens + refills ℤ (0 ∷ minute ∷ []) c.limiter))
calls-IsBounded_example =
    calls-IsBounded ℤ limits down (0 ∷ minute ∷ []) (new_client limits 0) (omega arith)

four_in_a_minute :
    (calls ℤ limits down (0 ∷ minute ∷ []) (new_client limits 0)).sent ≡ 22 ∷ 45 ∷ 22 ∷ 45 ∷ []
unfolding call allow refilled attempt refill_of
four_in_a_minute = refl
