-- ===== src/Domain/Positions.antt =====
-- internal/domain/position.go.
use Prim.Native.String.{String}
use binance_futures.Base.{ℕ, Bool, Option, List}
use binance_futures.Base.Int.{ℤ}
use binance_futures.Domain.Orders.{Side, EntryMode, LlmDecision}
use binance_futures.Domain.Indicators.{IndicatorSnapshot, BtcContext}
use binance_futures.Domain.Scoring.{ScoredCandidate}

pub record Position (F : Type 0) : Type 0 where
  pub symbol : String
  pub side : Side
  pub entry_price : F
  pub quantity : F
  pub original_qty : F
  pub leverage : ℤ
  pub entry_mode : EntryMode
  pub mark_price : F
  pub stop_loss : F
  pub take_profit : F
  pub sl_order_id : String
  pub tp_order_id : String
  pub trade_id : ℕ
  pub opened_at : ℕ
  pub is_paper : Bool
  pub breakeven_moved : Bool
  pub tp1_filled : Bool
  pub tp1_fill_price : F
  pub tp1_filled_at : Option ℕ
  pub trailing_order_id : String
  pub trailing_sl_order_id : String
  pub tp2_order_id : String
  pub tp2_price : F
  pub last_force_sl_check : Option ℕ
  pub force_sl_count : ℕ
  pub llm_entry_reasons : List String
  pub original_confidence : ℤ
  pub high_since_entry : F
  pub low_since_entry : F
  pub funding_rate_at_entry : F
  pub funding_fee_paid : Bool
  pub funding_fee_paid_pct : F
  pub funding_fee_paid_amount : F
  pub settlement_passed_at : Option ℕ
  pub tp_widened : Bool
  pub trailing_peak : F

-- `Window` is the entry mode's text.
pub record PendingEntry (F : Type 0) : Type 0 where
  pub trade_id : ℕ
  pub order_id : String
  pub symbol : String
  pub quantity : F
  pub position_size_pct : F
  pub confidence : ℤ
  pub window : EntryMode
  pub tp_pct : F
  pub llm_decision : Option LlmDecision
  pub created_at : ℕ
  pub expires_at : ℕ
  pub funding_rate_at_entry : F
  pub funding_rate : F
  pub change_24h : F
  pub scored_candidate : Option (ScoredCandidate F)
  pub indicator_snapshot : Option (IndicatorSnapshot F)
  pub btc_context : Option (BtcContext F)

pub record PendingProtection (F : Type 0) : Type 0 where
  pub symbol : String
  pub needs_sl : Bool
  pub needs_tp : Bool
  pub entry_price : F
  pub quantity : F
  pub tp1_qty : F
  pub stop_loss : F
  pub take_profit : F
  pub retries : ℕ
  pub last_attempt : Option ℕ
