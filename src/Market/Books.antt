-- ===== src/Market/Books.antt =====
-- internal/market/book_ticker.go and ticker_cache.go. The maps are functions.
use Prim.Native.String.{String}
use text.Mathlib.Text.{◌==◌ as str_eq}
use binance_futures.Base.{ℕ, ◌||◌, Option, none, some, if◌then◌else◌}
use binance_futures.Base.Int.{pos}
use binance_futures.Float64.{Float64, nought}

pub record BookTicker (F : Type 0) : Type 0 where
  pub bid_price : F
  pub bid_qty : F
  pub ask_price : F
  pub ask_qty : F
  pub updated_at : ℕ

-- `c.data[symbol] = v`
abbrev pub put {ℓ} : {A : Type ℓ} → String → A → (String → Option A) → String → Option A
put symbol v m t = if str_eq symbol t then some v else m t

-- `delete(c.data, symbol)`
abbrev pub forget {ℓ} : {A : Type ℓ} → String → (String → Option A) → String → Option A
forget symbol m t = if str_eq symbol t then none else m t

module _ {F : Type 0} ⦃f : Float64 F⦄ where
  open f use {lit, sub, mul, div, eq}

  abbrev pub spread_of : BookTicker F → Option F
  spread_of b =
      if eq b.bid_price nought || eq b.ask_price nought
      then none
      else some (mul (div (sub b.ask_price b.bid_price) b.bid_price) (lit (pos 10_000) 0))

  pub spread_bps : Option (BookTicker F) → Option F
  spread_bps none = none
  spread_bps (some b) = spread_of b

  pub bid_depth_usdt : Option (BookTicker F) → Option F
  bid_depth_usdt none = none
  bid_depth_usdt (some b) = if eq b.bid_price nought then none else some (mul b.bid_qty b.bid_price)

  pub ask_depth_usdt : Option (BookTicker F) → Option F
  ask_depth_usdt none = none
  ask_depth_usdt (some b) = if eq b.ask_price nought then none else some (mul b.ask_qty b.ask_price)
