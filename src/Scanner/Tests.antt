-- ===== src/Scanner/Tests.antt =====
-- Examples for the scanner: three symbols, of which one settles every hour.
use Prim.Native.String.{String}
use binance_futures.Base.{some, none, [], ◌∷◌, if◌then◌else◌}
use binance_futures.Base.Int.{ℤ, negsuc}
use binance_futures.Base.Sorting.Ranked.{Ranked}
use binance_futures.Float64.Fixed.{fixed}
use text.Mathlib.Text.{◌==◌ as str_eq}
use binance_futures.Samples.{coins}
use binance_futures.Market.Engine.{MarketProvider}
use binance_futures.Scanner.{FundingConfig}
use binance_futures.Scanner.Eligible.{Eligible}

abbrev funding_config : FundingConfig ℤ
funding_config = record { min_rate = negsuc 999; max_rate = negsuc 9; top_candidates = 1 }

abbrev market : MarketProvider ℤ
market = record {
  all_funding_rates =
      ("BTCUSDT", negsuc 99) ∷ ("ETHUSDT", negsuc 199) ∷ ("SOLUSDT", negsuc 299) ∷ [];
  price = λ _. some (coins 100);
  funding_interval_hours = λ s. if str_eq s "SOLUSDT" then 1 else 8;
  funding_info = λ _. none;
  candles = λ _ _ _. [];
}
