-- ===== src/Settings/Filled.antt =====
-- What holds of the settings after `setDefaults`.
use Prim.Native.String.{String}
use text.Mathlib.Text.{◌==◌ as str_eq}
use binance_futures.Base.{◌≡◌, inl, inr, refl, ℕ, Bool, Bool-cases, true, false, ◌==◌}
use binance_futures.Base.Int.{ℤ, pos}
use binance_futures.Float64.{Float64}
use binance_futures.Settings.{Config}
use binance_futures.Settings.Defaults.{
  count_or, int_or, is_zero, on_unless, set_after_exec, set_app, set_defaults, set_funding,
  set_funding_avoidance, set_llm, set_order_book_filter, set_pre_settlement, set_protection_sweep,
  set_risk, set_scheduler, set_summary, set_trading, text_or,
}

text_or_filled : (d x : String) → str_eq d "" ≡ false → str_eq (text_or d x) "" ≡ false
unfolding text_or
text_or_filled d x h = elim (Bool-cases (str_eq x "")) [ inl y ↦ rw y h | inr n ↦ rw (n, n) refl ]

int_or_filled : (d x : ℤ) → is_zero d ≡ false → is_zero (int_or d x) ≡ false
unfolding int_or
int_or_filled d x h = elim (Bool-cases (is_zero x)) [ inl y ↦ rw y h | inr n ↦ rw (n, n) refl ]

count_or_filled : (d x : ℕ) → (d == 0) ≡ false → (count_or d x == 0) ≡ false
unfolding count_or
count_or_filled d x h = elim (Bool-cases (x == 0)) [ inl y ↦ rw y h | inr n ↦ rw (n, n) refl ]

on_unless-true : (x : Bool) → on_unless x ≡ true
unfolding on_unless
on_unless-true true = refl
on_unless-true false = refl

module _ {F : Type 0} ⦃f : Float64 F⦄ where
  -- What the other parts count on.
  pub record Filled (c : Config F) : Type 0 where
    pub has_mode : str_eq c.app.mode "" ≡ false
    pub asks_some : is_zero c.llm.top_candidates ≡ false
    pub ranks_some : (c.funding.top_candidates == 0) ≡ false
    pub opens_some : is_zero c.trading.max_positions ≡ false
    pub levered : is_zero c.trading.leverage ≡ false
    pub loses_some : is_zero c.risk.max_daily_losses ≡ false
    pub has_window : (c.scheduler.window_start_minutes == 0) ≡ false
    pub has_interval : is_zero c.protection_sweep.interval_seconds ≡ false

  -- The switches that are on.
  pub record SwitchedOn (c : Config F) : Type 0 where
    pub avoids_funding : c.funding_avoidance.enabled ≡ true
    pub sweeps : c.protection_sweep.enabled ≡ true
    pub filters_books : c.order_book_filter.enabled ≡ true
    pub summarizes : c.summary.enabled ≡ true
    pub rejects_breakouts : c.risk.btc_breakout_reject ≡ true
    pub widens : c.pre_settlement.widen_tp_on_miss ≡ true
    pub falls_back : c.after_execution.fallback_to_scheduler ≡ true

  -- Whatever the file says, after the defaults the counts that the other parts need are not 0 and the
  -- mode is not empty; and seven switches are on, also those that the file turns off.
  pub set_defaults-Filled : (c : Config F) → Filled (set_defaults c) × SwitchedOn (set_defaults c)
  unfolding set_defaults set_app set_llm set_funding set_trading set_risk set_scheduler
      set_protection_sweep set_funding_avoidance set_order_book_filter set_summary
      set_pre_settlement set_after_exec
  set_defaults-Filled c = (
    record {
      has_mode = text_or_filled "paper" c.app.mode refl;
      asks_some = int_or_filled (pos 3) c.llm.top_candidates refl;
      ranks_some = count_or_filled 10 c.funding.top_candidates refl;
      opens_some = int_or_filled (pos 2) c.trading.max_positions refl;
      levered = int_or_filled (pos 10) c.trading.leverage refl;
      loses_some = int_or_filled (pos 4) c.risk.max_daily_losses refl;
      has_window = count_or_filled 30 c.scheduler.window_start_minutes refl;
      has_interval = int_or_filled (pos 7) c.protection_sweep.interval_seconds refl;
    },
    record {
      avoids_funding = on_unless-true c.funding_avoidance.enabled;
      sweeps = on_unless-true c.protection_sweep.enabled;
      filters_books = on_unless-true c.order_book_filter.enabled;
      summarizes = on_unless-true c.summary.enabled;
      rejects_breakouts = on_unless-true c.risk.btc_breakout_reject;
      widens = on_unless-true c.pre_settlement.widen_tp_on_miss;
      falls_back = on_unless-true c.after_execution.fallback_to_scheduler;
    },
  )
