-- ===== src/Domain/Orders.antt =====
-- internal/domain/order.go, trade.go, symbol.go and llm_decision.go.
use Prim.Native.String.{String}
use binance_futures.Base.{ℕ, Bool, Option, List}
use binance_futures.Base.Int.{ℤ}

pub data Side : Type 0 where
  buy sell : Side

pub data OrderType : Type 0 where
  market limit stop stop_market take_profit trailing_stop_market : OrderType

-- A Go string: one of the three constants, or any other text.
pub data EntryMode : Type 0 where
  frontrun last_minute after : EntryMode
  other : String → EntryMode

pub record OrderRequest (F : Type 0) : Type 0 where
  pub symbol : String
  pub side : Side
  pub type : OrderType
  pub quantity : F
  pub price : F
  pub trigger_price : F
  pub reduce_only : Bool
  pub close_position : Bool
  pub new_client_order_id : String

pub record OrderResult (F : Type 0) : Type 0 where
  pub order_id : String
  pub symbol : String
  pub side : Side
  pub fill_price : F
  pub quantity : F
  pub status : String
  pub is_paper : Bool
  pub timestamp : ℕ
  pub client_order_id : String

pub record Balance (F : Type 0) : Type 0 where
  pub asset : String
  pub total_balance : F
  pub available_balance : F

pub record LlmDecision : Type 0 where
  pub action : String
  pub symbol : String
  pub confidence : ℤ
  pub entry_mode : EntryMode
  pub entry_reasons : List String
  pub warnings : List String
  pub skip_reason : String

pub record Trade (F : Type 0) : Type 0 where
  pub id : ℕ
  pub symbol : String
  pub side : Side
  pub entry_mode : EntryMode
  pub leverage : ℤ
  pub confidence : ℤ
  pub funding_rate : F
  pub change_24h : F
  pub entry_price : F
  pub quantity : F
  pub is_paper : Bool
  pub created_at : ℕ
  pub llm_confidence : Option ℤ
  pub llm_entry_mode : Option EntryMode
  pub llm_entry_reasons : List String
  pub llm_warnings : List String

-- The results and the close reasons that the code writes.
pub data TradeResult : Type 0 where
  win loss partial_win force_sl breakeven by_hand : TradeResult

pub data CloseReason : Type 0 where
  tp2 tp_trail hard_sl breakeven_sl force_close manual : CloseReason

pub record ExitInfo (F : Type 0) : Type 0 where
  pub avg_close_price : F
  pub pnl : F
  pub roi_pct : F
  pub result : TradeResult
  pub close_reason : CloseReason
  pub closed_at : ℕ
  pub funding_fee_paid : Bool

-- internal/domain/memory.go.
pub record SimilarTrade (F : Type 0) : Type 0 where
  pub outcome : String
  pub profit_pct : F
  pub similarity : F
  pub lesson : String
  pub days_ago : ℤ
  pub entry_mode : String
  pub funding_rate : F

pub record ModeWinRate : Type 0 where
  pub wins : ℕ
  pub losses : ℕ
  pub total : ℕ
