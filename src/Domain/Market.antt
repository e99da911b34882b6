-- ===== src/Domain/Market.antt =====
-- internal/domain/funding.go.
use Prim.Native.String.{String}
use binance_futures.Base.{ℕ, Option}

-- `NextFunding` is none if it is the zero time.
pub record FundingRate (F : Type 0) : Type 0 where
  pub symbol : String
  pub rate : F
  pub next_funding : Option ℕ
  pub mark_price : F
  pub updated_at : ℕ
