-- ===== src/Execution/Paper.antt =====
-- internal/execution/paper_executor.go, as an exchange: `ticker` has the prices, `fresh` the random
-- identifiers and `clock` the times, of the calls before. No result has a client order identifier.
use Prim.Native.String.{String}
use text.Mathlib.TextEquality.{eq_iff}
use binance_futures.Base.{
  ℕ, ◌≡◌, arith, inl, inr, refl, true, Option, none, some, List, if◌then◌else◌,
}
use binance_futures.Base.Int.{pos}
use binance_futures.Float64.{Float64, nought}
use binance_futures.Domain.{PendingEntry, OrderRequest, OrderResult, Position, Side}
use binance_futures.Execution.World.{
  Call, Config, Exchange, World, absent, find_position, place_limit, place_market,
  place_stop_market,
}
use binance_futures.Execution.Protection.Sweep.{emergency_protect}
use binance_futures.Execution.Protection.Sweep.Repairs.{emergency_protect_outcomes}

-- The settings and the environment of the executor.
pub record PaperSettings (F : Type 0) : Type 0 where
  pub balance : F
  pub slippage : F
  pub ticker : String → Option F
  pub fresh : List (Call F) → String
  pub clock : List (Call F) → ℕ
  pub uuid_text : ℕ → String
  pub entry_json : PendingEntry F → Option String
  pub entry_of_json : String → Option (PendingEntry F)

module _ {F : Type 0} ⦃f : Float64 F⦄ (s : PaperSettings F) where
  open f use {lit, add, sub, mul, eq}

  abbrev pub paper_result : List (Call F) → OrderRequest F → F → String → OrderResult F
  paper_result calls r fill_price status = record {
    order_id = s.fresh calls;
    symbol = r.symbol;
    side = r.side;
    fill_price = fill_price;
    quantity = r.quantity;
    status = status;
    is_paper = true;
    timestamp = s.clock calls;
    client_order_id = "";
  }

  -- A sale fills below the price by the slippage, a purchase above it.
  abbrev pub slipped : Side → F → F
  slipped Side.sell price = mul price (sub (lit (pos 1) 0) s.slippage)
  slipped Side.buy price = mul price (add (lit (pos 1) 0) s.slippage)

  abbrev pub fill_market : List (Call F) → OrderRequest F → Option F → Option (OrderResult F)
  fill_market calls r none = none
  fill_market calls r (some price) =
      if eq price nought then none else some (paper_result calls r (slipped r.side price) "FILLED")

  abbrev pub paper_place : List (Call F) → Call F → Option (OrderResult F)
  paper_place calls (place_market r) = fill_market calls r (s.ticker r.symbol)
  paper_place calls (place_limit r) = some (paper_result calls r r.price "NEW")
  paper_place calls (place_stop_market r) = some (paper_result calls r nought "NEW")
  paper_place calls _ = none

  unfoldable pub paper_executor : Exchange F
  paper_executor = record {
    place = paper_place;
    cancel = λ _ _ _. true;
    position = λ _ _. absent;
    balance = λ _.
        some (record { asset = "USDT"; total_balance = s.balance; available_balance = s.balance });
    leverage_set = λ _ _. true;
    uuid_text = s.uuid_text;
    entry_json = s.entry_json;
    entry_of_json = s.entry_of_json;
  }

  -- In paper mode, a position that the sweep takes for unprotected is dropped from the cache.
  pub emergency_protect_paper :
      (c : Config F) (p : Position F) (w : World F)
      → find_position p.symbol (emergency_protect c paper_executor p w).active ≡ none
  unfolding paper_executor
  emergency_protect_paper c p w = elim (emergency_protect_outcomes c paper_executor p w) [
    | inl (_, r) ↦ ground (arith, r.gone p.symbol, eq_iff p.symbol p.symbol)
    | inr (n, _) ↦ absurd (n refl)
  ]
