-- ===== src/Market/Engine.antt =====
-- internal/market/engine.go: the caches together, and what the scanner reads of them.
use Prim.Native.String.{String}
use binance_futures.Base.{ℕ, Option, none, List, [], ◌∷◌}
use binance_futures.Float64.{Float64}
use binance_futures.Domain.{Candle, FundingRate, Timeframe}
use binance_futures.Market.Books.{put}
use binance_futures.Market.Candles.{
  CandleStore, new_candle_store, update_candle as update_series_of, purge_candles,
  get_candles as candles_of,
}
use binance_futures.Market.Funding.{
  FundingEntry, update_funding as update_entry, set_funding_interval as set_interval, get_info,
  get_all, get_interval_hours,
}
use binance_futures.Market.OpenInterest.{OiCache, new_oi_cache, update_oi as add_oi, purge_oi}

pub record MarketEngine (F : Type 0) : Type 0 where
  pub funding : List (FundingEntry F)
  pub ticker : String → Option F
  pub candles : CandleStore F
  pub oi : OiCache F

-- What a reader asks of the market: `MarketProvider` of internal/scanner/funding_scanner.go.
pub record MarketProvider (F : Type 0) : Type 0 where
  pub all_funding_rates : List (String × F)
  pub price : String → Option F
  pub funding_interval_hours : String → ℕ
  pub funding_info : String → Option (FundingRate F)
  pub candles : String → Timeframe → ℕ → List (Candle F)

module _ {F : Type 0} where
  abbrev pub new_market_engine : MarketEngine F
  new_market_engine = record {
    funding = [];
    ticker = λ _. none;
    candles = new_candle_store;
    oi = new_oi_cache;
  }

  -- `UpdateFunding`: the mark price is also the ticker's price.
  unfoldable pub update_funding : String → F → Option ℕ → F → ℕ → MarketEngine F → MarketEngine F
  update_funding symbol rate next mark now e = record e {
    funding = update_entry symbol rate next mark now e.funding;
    ticker = put symbol mark e.ticker;
  }

  abbrev pub update_candle : Candle F → MarketEngine F → MarketEngine F
  update_candle c e = record e { candles = update_series_of c e.candles }

  abbrev pub seed_candles : List (Candle F) → MarketEngine F → MarketEngine F
  seed_candles [] e = e
  seed_candles (c ∷ cs) e = seed_candles cs (update_candle c e)

  abbrev pub update_oi : String → F → ℕ → MarketEngine F → MarketEngine F
  update_oi symbol oi now e = record e { oi = add_oi symbol oi now e.oi }

  abbrev pub purge_symbol : String → MarketEngine F → MarketEngine F
  purge_symbol symbol e = record e {
    candles = purge_candles symbol e.candles;
    oi = purge_oi symbol e.oi;
  }

  unfoldable pub provider : MarketEngine F → MarketProvider F
  provider e = record {
    all_funding_rates = get_all e.funding;
    price = e.ticker;
    funding_interval_hours = λ s. get_interval_hours s e.funding;
    funding_info = λ s. get_info s e.funding;
    candles = λ s tf limit. candles_of s tf limit e.candles;
  }

module _ {F : Type 0} ⦃f : Float64 F⦄ where
  abbrev pub set_funding_interval : String → ℕ → MarketEngine F → MarketEngine F
  set_funding_interval symbol hours e = record e { funding = set_interval symbol hours e.funding }
