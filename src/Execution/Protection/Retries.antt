-- ===== src/Execution/Protection/Retries.antt =====
-- What one retry of the missing protection orders does.
use Prim.Native.String.{String}
use text.Mathlib.Text.{◌==◌ as str_eq}
use binance_futures.Base.{
  ℕ, suc, ◌≤◌, ◌<◌, ◌≡◌, ◌∙◌, refl, Bool, true, false, not, ◌&&◌, ◌||◌, none, some, [], ◌∷◌, List,
  ◌++◌, map, keep, arith, if◌then◌else◌,
}
use binance_futures.Float64.{Float64}
use binance_futures.Domain.{Position, PendingProtection, OrderResult}
use binance_futures.Execution.World.{Config, Exchange, World, Call, cancel_order}
use binance_futures.Execution.Calls.{buy_stop, buy_limit, buy_back, less_percent}
use binance_futures.Execution.Protection.{
  refused, Attempt, too_soon, retry_sl, retry_tp, finish_attempt, retry_protection, force_close,
}

module _ {F : Type 0} ⦃f : Float64 F⦄ (c : Config F) (x : Exchange F) where
  -- What an attempt at one order leaves alone.
  record Keeps (a b : Attempt c x) : Type 0 where
    symbol : b.position.symbol ≡ a.position.symbol
    protections : b.world.protections ≡ a.world.protections
    trades : b.world.trades ≡ a.world.trades
    entries : b.world.entries ≡ a.world.entries
    results : b.world.results ≡ a.world.results

  abbrev stop_of : Attempt c x → Call F
  stop_of a = buy_stop a.position.symbol a.missing.stop_loss

  abbrev profit_of : Attempt c x → Call F
  profit_of a = buy_limit a.position.symbol a.missing.tp1_qty a.missing.take_profit

  retry_sl-Keeps : (a : Attempt c x) → Keeps a (retry_sl c x a)
  unfolding retry_sl
  retry_sl-Keeps a = record {
    symbol = ground arith;
    protections = ground arith;
    trades = ground arith;
    entries = ground arith;
    results = ground arith;
  }

  retry_sl-missing :
      (a : Attempt c x)
      → (retry_sl c x a).missing ≡ record a.missing {
        needs_sl = a.missing.needs_sl && refused (x.place a.world.calls (stop_of a));
      }
  unfolding retry_sl
  retry_sl-missing a = ground arith

  retry_sl-calls :
      (a : Attempt c x)
      → (retry_sl c x a).world.calls
        ≡ (if a.missing.needs_sl then stop_of a ∷ a.world.calls else a.world.calls)
  unfolding retry_sl
  retry_sl-calls a = ground arith

  retry_tp-Keeps : (a : Attempt c x) → Keeps a (retry_tp c x a)
  unfolding retry_tp
  retry_tp-Keeps a = record {
    symbol = ground arith;
    protections = ground arith;
    trades = ground arith;
    entries = ground arith;
    results = ground arith;
  }

  retry_tp-missing :
      (a : Attempt c x)
      → (retry_tp c x a).missing ≡ record a.missing {
        needs_tp = a.missing.needs_tp && refused (x.place a.world.calls (profit_of a));
      }
  unfolding retry_tp
  retry_tp-missing a = ground arith

  -- The second take-profit, for what the first leaves.
  abbrev second_of : PendingProtection F → Call F
  second_of pp =
      buy_limit pp.symbol (f.sub pp.quantity pp.tp1_qty) (less_percent pp.entry_price c.tp2_pct)

  retry_tp-calls :
      (a : Attempt c x)
      → (retry_tp c x a).world.calls ≡ (
          if a.missing.needs_tp
          then if refused (x.place a.world.calls (profit_of a))
            then profit_of a ∷ a.world.calls
            else second_of a.missing ∷ profit_of a ∷ a.world.calls
          else a.world.calls)
  unfolding retry_tp
  retry_tp-calls a = ground arith

  finish-calls : (now : ℕ) (a : Attempt c x) → (finish_attempt c x now a).calls ≡ a.world.calls
  unfolding finish_attempt
  finish-calls now a = ground arith

  -- What is written at the end of an attempt that started with symbol and stores as those of `b`.
  finish-cleared :
      (now : ℕ) (b a : Attempt c x) (m : PendingProtection F)
      → Keeps b a
      → a.missing ≡ m
      → (m.needs_sl || m.needs_tp) ≡ false
      → (finish_attempt c x now a).protections
        ≡ keep (λ q. not (str_eq q.symbol b.position.symbol)) b.world.protections
  unfolding finish_attempt
  finish-cleared now b a m k e h = ground (arith, h, e, k.symbol, k.protections)

  finish-renewed :
      (now : ℕ) (b a : Attempt c x) (m : PendingProtection F)
      → Keeps b a
      → a.missing ≡ m
      → (m.needs_sl || m.needs_tp) ≡ true
      → (finish_attempt c x now a).protections
        ≡ (record m { retries = suc m.retries; last_attempt = some now })
          ∷ keep (λ q. not (str_eq q.symbol m.symbol)) b.world.protections
  unfolding finish_attempt
  finish-renewed now b a m k e h = ground (arith, h, e, k.protections)

  finish-others :
      (now : ℕ) (a : Attempt c x)
      → let w = finish_attempt c x now a in
        (w.trades ≡ a.world.trades) × (w.entries ≡ a.world.entries) × (w.results ≡ a.world.results)
  unfolding finish_attempt
  finish-others now a = ground arith

  Keeps-trans : {a b d : Attempt c x} → Keeps a b → Keeps b d → Keeps a d
  Keeps-trans h k = record {
    symbol = k.symbol ∙ h.symbol;
    protections = k.protections ∙ h.protections;
    trades = k.trades ∙ h.trades;
    entries = k.entries ∙ h.entries;
    results = k.results ∙ h.results;
  }

  retry-due :
      (now : ℕ) (id : String) (p : Position F) (pp : PendingProtection F) (w : World F)
      → too_soon now pp.last_attempt ≡ false
      → pp.retries < 5
      → retry_protection c x now id p pp w
        ≡ finish_attempt c x now
            (retry_tp c x (retry_sl c x (record { missing = pp; position = p; world = w })))
  unfolding retry_protection
  retry-due now id p pp w due few = ground (arith, due, few)

module _ {F : Type 0} ⦃f : Float64 F⦄ (c : Config F) (x : Exchange F) (now : ℕ) (client_id : String)
    (p : Position F) (pp : PendingProtection F) where
  abbrev stop_call : Call F
  stop_call = buy_stop p.symbol pp.stop_loss

  abbrev profit_call : Call F
  profit_call = buy_limit p.symbol pp.tp1_qty pp.take_profit

  -- The second take-profit, for what the first leaves.
  abbrev second_call : Call F
  second_call =
      buy_limit pp.symbol (f.sub pp.quantity pp.tp1_qty) (less_percent pp.entry_price c.tp2_pct)

  -- The calls once the missing stop was sent.
  abbrev stop_sent : World F → List (Call F)
  stop_sent w = if pp.needs_sl then stop_call ∷ w.calls else w.calls

  -- One attempt: only the missing orders are sent, each once, the first take-profit after the stop
  -- and, if it is accepted, followed by the second one; what is refused stays missing. If
  -- nothing is missing the record of the symbol is removed, otherwise it is renewed with one more
  -- retry at this time. No trade, pending entry or result is written.
  pub record Attempts (w w' : World F) : Type 0 where
    pub left_sl : Bool
    pub left_tp : Bool
    pub sl : left_sl ≡ pp.needs_sl && refused (x.place w.calls stop_call)
    pub tp : left_tp ≡ pp.needs_tp && refused (x.place (stop_sent w) profit_call)
    pub calls : w'.calls ≡ (
        if pp.needs_tp
        then if refused (x.place (stop_sent w) profit_call)
          then profit_call ∷ stop_sent w
          else second_call ∷ profit_call ∷ stop_sent w
        else stop_sent w)
    pub cleared :
        (left_sl || left_tp) ≡ false
        → w'.protections ≡ keep (λ q. not (str_eq q.symbol p.symbol)) w.protections
    pub renewed :
        (left_sl || left_tp) ≡ true
        → w'.protections
          ≡ (record pp {
            needs_sl = left_sl;
            needs_tp = left_tp;
            retries = suc pp.retries;
            last_attempt = some now;
          })
            ∷ keep (λ q. not (str_eq q.symbol pp.symbol)) w.protections
    pub trades : w'.trades ≡ w.trades
    pub entries : w'.entries ≡ w.entries
    pub results : w'.results ≡ w.results

  -- When the interval since the last attempt has passed and fewer than five retries were made, a
  -- retry sends only the missing orders, each once, the stop before the take-profit, and the second
  -- take-profit exactly after an accepted first one; what is refused stays missing. If nothing is
  -- missing then, the record of the symbol is removed, otherwise it is renewed with one more retry
  -- at this time. No trade, pending entry or result is written.
  pub retry_protection-Attempts :
      (w : World F)
      → too_soon now pp.last_attempt ≡ false
      → pp.retries < 5
      → Attempts w (retry_protection c x now client_id p pp w)
  retry_protection-Attempts w due few =
      let a : Attempt c x = record { missing = pp; position = p; world = w } in
      let b = retry_sl c x a in
      let d = retry_tp c x b in
      let k = Keeps-trans c x (retry_sl-Keeps c x a) (retry_tp-Keeps c x b) in
      let o = finish-others c x now d in
      let l = pp.needs_sl && refused (x.place w.calls stop_call) in
      let t =
        pp.needs_tp
        && refused (x.place (if pp.needs_sl then stop_call ∷ w.calls else w.calls) profit_call) in
      let tp : record b.missing {
        needs_tp = b.missing.needs_tp && refused (x.place b.world.calls (profit_of c x b));
      }
          ≡ record pp { needs_sl = l; needs_tp = t } =
        rw (retry_sl-calls c x a, (retry_sl-Keeps c x a).symbol, retry_sl-missing c x a) refl in
      let m : d.missing ≡ record pp { needs_sl = l; needs_tp = t } = retry_tp-missing c x b ∙ tp in
      rw (retry-due c x now client_id p pp w due few) (record {
        left_sl = l;
        left_tp = t;
        sl = refl;
        tp = refl;
        calls =
            finish-calls c x now d
            ∙ retry_tp-calls c x b
            ∙ rw (retry_sl-calls c x a, (retry_sl-Keeps c x a).symbol, retry_sl-missing c x a) refl;
        cleared = finish-cleared c x now a d _ k m;
        renewed = finish-renewed c x now a d _ k m;
        trades = o.0 ∙ k.trades;
        entries = o.1 ∙ k.entries;
        results = o.2 ∙ k.results;
      })

  -- The requests to cancel the orders of the position that are known by an id, the latest first.
  abbrev cancels : List (Call F)
  cancels = map (cancel_order p.symbol) (
      keep (λ id. not (str_eq id ""))
        (p.tp2_order_id ∷ p.trailing_sl_order_id ∷ p.trailing_order_id ∷ p.tp_order_id
          ∷ p.sl_order_id ∷ []))

  -- The order that closes the position.
  abbrev close_call : Call F
  close_call = buy_back p.symbol p.quantity client_id

  -- After five retries the record of the symbol is removed and one order is sent that closes the
  -- position at the market. If it is accepted, each known order of the position is asked to be
  -- cancelled, once; if it is refused, nothing more is sent. The cached position stays either way.
  pub retry_protection_exhausted :
      (w : World F)
      → too_soon now pp.last_attempt ≡ false
      → 5 ≤ pp.retries
      → let w' = retry_protection c x now client_id p pp w in
        (w'.protections ≡ keep (λ q. not (str_eq q.symbol p.symbol)) w.protections)
        × (w'.active ≡ w.active)
        × (x.place w.calls close_call ≡ none → w'.calls ≡ close_call ∷ w.calls)
        × ((o : OrderResult F)
            → x.place w.calls close_call ≡ some o
            → w'.calls ≡ cancels ++ close_call ∷ w.calls)
  unfolding retry_protection force_close
  retry_protection_exhausted w due many = (
    ground (arith, due, many),
    ground (arith, due, many),
    λ h. ground (arith, due, many, h),
    λ o h. ground (arith, due, many, h),
  )
