-- ===== src/Llm/Client.antt =====
-- internal/llm/client.go: the token bucket and `Call`. `MaxRPM` is not negative. A call of the model is a
-- parameter, of the timeouts of the calls before (the latest first) and its own.
pub mod Limits
use Prim.Native.String.{String}
use binance_futures.Base.{
  ℕ, ◌+◌, ◌-◌, ◌*◌, ◌/◌, ◌≤◌, Bool, true, false, ◌&&◌, Option, none, some, List, [], ◌∷◌, length,
  ltb, leb, ◌==◌, arith, if◌then◌else◌,
}
use binance_futures.Base.Int.{ℤ, pos, pos_part, sub_ℕ, ltb_ℤ}
use binance_futures.Float64.{Float64}
use binance_futures.Llm.{signed_minutes}
use binance_futures.Llm.Decision.{LlmReply, LlmResponse, answered, invalid, unavailable}

pub record RateLimiter : Type 0 where
  pub tokens : ℕ
  pub max_rpm : ℕ
  pub last_fill : ℕ

-- `ClientConfig` without what only the call itself reads.
pub record ClientConfig : Type 0 where
  pub timeout : ℕ
  pub retry_count : ℤ
  pub max_rpm : ℕ

-- An error with its text, or the content of the first choice.
pub data CallResult : Type 0 where
  failed : String → CallResult
  replied : String → CallResult

abbrev pub is_failed : CallResult → Bool
is_failed (failed _) = true
is_failed (replied _) = false

abbrev pub new_rate_limiter : ℕ → ℕ → RateLimiter
new_rate_limiter max_rpm now = record { tokens = max_rpm; max_rpm = max_rpm; last_fill = now }

-- The limiter and the timeouts of the invocations of `doCall` so far. The HTTP requests that the client
-- library makes within one are not counted.
pub record Client : Type 0 where
  pub limiter : RateLimiter
  pub sent : List ℕ

abbrev pub new_client : ClientConfig → ℕ → Client
new_client cfg now = record { limiter = new_rate_limiter cfg.max_rpm now; sent = [] }

-- `json.Unmarshal` is a parameter; none is an error.
abbrev pub reply_of : (String → Option LlmResponse) → CallResult → LlmReply
reply_of unmarshal (failed error) = unavailable error
reply_of unmarshal (replied raw) = elim (unmarshal raw) [ none ↦ invalid | some r ↦ answered r ]

abbrev pub capped : ℕ → ℕ → ℕ
capped top n = if ltb top n then top else n

module _ (cfg : ClientConfig) (do_call : List ℕ → ℕ → CallResult) where
  -- What follows an allowed call: a retry with half of the timeout.
  unfoldable pub attempt : List ℕ → CallResult × List ℕ
  attempt sent =
      let first = do_call sent cfg.timeout in
      if is_failed first && ltb_ℤ (pos 0) cfg.retry_count
      then (do_call (cfg.timeout ∷ sent) (cfg.timeout / 2), cfg.timeout / 2 ∷ cfg.timeout ∷ sent)
      else (first, cfg.timeout ∷ sent)

-- `F` is the type of the floats.
module _ (F : Type 0) ⦃f : Float64 F⦄ where
  open f use {of_int, to_int, mul}

  -- `refill`, of which what is not positive counts as 0.
  unfoldable pub refill_of : ℕ → RateLimiter → ℕ
  refill_of now r =
      pos_part (to_int (mul (signed_minutes (sub_ℕ now r.last_fill)) (of_int (pos r.max_rpm))))

  unfoldable pub refilled : ℕ → RateLimiter → RateLimiter
  refilled now r =
      let refill = refill_of now r in
      if ltb 0 refill
      then record r { tokens = capped r.max_rpm (r.tokens + refill); last_fill = now }
      else r

  unfoldable pub allow : ℕ → RateLimiter → Bool × RateLimiter
  allow now r =
      let full = refilled now r in
      if full.tokens == 0 then (false, full) else (true, record full { tokens = full.tokens - 1 })

  module _ (cfg : ClientConfig) (do_call : List ℕ → ℕ → CallResult) where
    unfoldable pub call : ℕ → Client → CallResult × Client
    call now c =
        let (ok, limiter) = allow now c.limiter in
        let (result, sent) = attempt cfg do_call c.sent in
        if ok
        then (result, record { limiter = limiter; sent = sent })
        else (failed "rate limit exceeded", record c { limiter = limiter })

    -- Calls at these times.
    abbrev pub calls : List ℕ → Client → Client
    calls [] c = c
    calls (t ∷ ts) c = calls ts (call t c).1

  -- What calls at these times fill in.
  abbrev pub refills : List ℕ → RateLimiter → ℕ
  refills [] r = 0
  refills (t ∷ ts) r = refill_of t r + refills ts (allow t r).1
