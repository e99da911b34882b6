-- ===== src/Llm/Client/Limits.antt =====
-- What the token bucket of internal/llm/client.go allows.
use binance_futures.Base.{
  ℕ, ◌+◌, ◌*◌, ◌≤◌, ◌≡◌, ap, refl, inl, inr, Bool-cases, List, [], ◌∷◌, length, arith,
  if◌then◌else◌, ◌&&◌,
}
use binance_futures.Base.Int.{pos, ltb_ℤ}
use binance_futures.Float64.{Float64}
use binance_futures.Llm.Client.{
  CallResult, Client, ClientConfig, RateLimiter, allow, attempt, call, calls, is_failed, refill_of,
  refilled, refills,
}

module _ (F : Type 0) ⦃f : Float64 F⦄ where
  -- The bucket holds no more than its size.
  abbrev pub IsBounded : RateLimiter → Type 0
  IsBounded r = r.tokens ≤ r.max_rpm

  refilled-IsBounded :
      (now : ℕ) (r : RateLimiter)
      → IsBounded r
      → IsBounded (refilled F now r)
        × ((refilled F now r).tokens ≤ r.tokens + refill_of F now r)
        × ((refilled F now r).max_rpm ≡ r.max_rpm)
  unfolding refilled
  refilled-IsBounded now r h = ground arith

  -- A call that is allowed takes a token.
  allow-IsBounded :
      (now : ℕ) (r : RateLimiter)
      → IsBounded r
      → let (ok, r') = allow F now r in
        IsBounded r'
        × (r'.tokens + (if ok then 1 else 0) ≤ r.tokens + refill_of F now r)
        × (r'.max_rpm ≡ r.max_rpm)
  unfolding allow
  allow-IsBounded now r h = ground (arith, refilled-IsBounded now r h)

  module _ (cfg : ClientConfig) (do_call : List ℕ → ℕ → CallResult) where
    attempt-sent : (sent : List ℕ) → length (attempt cfg do_call sent).1 ≤ length sent + 2
    unfolding attempt
    attempt-sent sent =
        elim (Bool-cases (is_failed (do_call sent cfg.timeout) && ltb_ℤ (pos 0) cfg.retry_count)) [
          | inl y ↦ rw y (omega arith)
          | inr n ↦ rw n (omega arith)
        ]

    call-limiter :
        (t : ℕ) (c : Client) → (call F cfg do_call t c).1.limiter ≡ (allow F t c.limiter).1
    unfolding call
    call-limiter t c = elim (Bool-cases (allow F t c.limiter).0) [
      | inl y ↦ rw y refl
      | inr n ↦ rw n refl
    ]

    call-Paid :
        (t : ℕ) (c : Client)
        → IsBounded c.limiter
        → let c' = (call F cfg do_call t c).1 in
          length c'.sent + 2 * c'.limiter.tokens
          ≤ length c.sent + 2 * (c.limiter.tokens + refill_of F t c.limiter)
    unfolding call
    call-Paid t c h =
        let (_, paid, _) = allow-IsBounded t c.limiter h in
        elim (Bool-cases (allow F t c.limiter).0) [
          | inl y ↦ rw y (omega (arith, rw y at paid, attempt-sent c.sent))
          | inr n ↦ rw n (omega (arith, rw n at paid))
        ]

    -- Over any calls, from a bucket that holds no more than its size: it never holds more, and the
    -- invocations of `doCall` are at most twice the tokens that it held and that were filled in meanwhile, less
    -- twice those that are left. A retry takes no token, so the factor is 2.
    pub calls-IsBounded :
        (ts : List ℕ) (c : Client)
        → IsBounded c.limiter
        → let c' = calls F cfg do_call ts c in
          IsBounded c'.limiter
          × (length c'.sent + 2 * c'.limiter.tokens
              ≤ length c.sent + 2 * (c.limiter.tokens + refills F ts c.limiter))
    calls-IsBounded [] c h = (h, omega arith)
    calls-IsBounded (t ∷ ts) c h =
        let (bounded, _, _) = allow-IsBounded t c.limiter h in
        let same = call-limiter t c in
        let step = call-Paid t c h in
        let (end, rest) = calls-IsBounded ts (call F cfg do_call t c).1 (rw same bounded) in
        (end, grind (arith, step, rest, ap (refills F ts) same))
