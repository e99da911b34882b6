-- ===== src/Risk/Tests.antt =====
-- Examples for the risk checks: one open position of three.
use binance_futures.Base.{refl, ◌≡◌, true, false, [], ◌∷◌, some}
use binance_futures.Base.Int.{ℤ}
use binance_futures.Float64.Fixed.{fixed, fixed-IsOrdered}
use binance_futures.Samples.{coins, position}
use binance_futures.Risk.{RiskConfig, CacheAnswers, passed, daily_loss_limit, pre_check}

abbrev limits : RiskConfig ℤ
limits = record {
  max_daily_losses = 4;
  max_atr_ratio = coins 6;
  btc_breakout_reject = true;
  min_composite_score = coins 60;
  min_score_override = coins 55;
  max_positions = 3;
}

abbrev answers : CacheAnswers ℤ
answers = record {
  kill_switch = some false;
  active_positions = some (position ∷ []);
  daily_loss_count = some 1;
}

few_losses : pre_check limits answers ≡ passed
unfolding pre_check
few_losses = refl

as_many_losses : pre_check limits (record answers { daily_loss_count = some 4 }) ≡ daily_loss_limit
unfolding pre_check
as_many_losses = refl
