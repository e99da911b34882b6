-- ===== src/Execution/World.antt =====
-- What the execution layer reads and changes: the exchange behind `Executor` (executor.go), the state
-- cache (internal/storage/redis.go), the trade table, and the configuration it uses.
-- The exchange is a parameter: each answer may depend on all earlier calls. Redis and Postgres are
-- taken to answer and to store what they are given, and positions and the records of a missing
-- protection to have a JSON; that of a pending entry may fail.
use Prim.Native.String.{String}
use text.Mathlib.Text.{◌==◌ as str_eq}
use binance_futures.Base.{
  ℕ, ◌+◌, Bool, not, ◌&&◌, Option, none, some, List, [], ◌∷◌, ltb, leb, ◌==◌, if◌then◌else◌, keep,
}
use binance_futures.Base.Int.{ℤ}
use binance_futures.Domain.{
  Position, PendingEntry, PendingProtection, OrderRequest, OrderResult, Balance, Trade, ExitInfo,
}

pub data Mode : Type 0 where
  paper live : Mode

-- The settings of internal/config/config.go that the execution layer reads.
pub record Config (F : Type 0) : Type 0 where
  pub mode : Mode
  pub leverage : ℤ
  pub max_positions : ℕ
  pub max_daily_losses : ℕ
  pub sl_pct : F
  pub tp_pct : F
  pub tp1_size_pct : F
  pub tp2_pct : F
  pub breakeven_activation_pct : F
  pub force_sl_enabled : Bool
  pub force_sl_start_min : ℕ
  pub force_sl_pnl_gate_pct : F
  pub force_sl_escalate_pnl_pct : F
  pub force_sl_slow_interval_sec : ℕ
  pub force_sl_fast_interval_sec : ℕ
  pub check_before_minutes : ℕ
  pub widen_tp_on_miss : Bool
  pub close_before_minutes : ℕ
  pub grace_seconds : ℕ

pub data Call (F : Type 0) : Type 0 where
  place_market place_limit place_stop_market : OrderRequest F → Call F
  cancel_order : String → String → Call F
  get_position : String → Call F
  get_balance : Call F
  set_leverage : String → ℤ → Call F

-- `GetPosition`: an error, `nil`, or a position.
pub data PositionReply (F : Type 0) : Type 0 where
  unreachable absent : PositionReply F
  found : Position F → PositionReply F

-- The answers of the exchange, by the calls before (the latest first); `none` and `false` are errors.
-- `uuid_text` is `uuid.UUID.String`; `entry_json` is `json.Marshal` of a pending entry, none where it
-- fails, as on NaN and infinity, and `entry_of_json` is `json.Unmarshal`.
pub record Exchange (F : Type 0) : Type 0 where
  pub place : List (Call F) → Call F → Option (OrderResult F)
  pub cancel : List (Call F) → String → String → Bool
  pub position : List (Call F) → String → PositionReply F
  pub balance : List (Call F) → Option (Balance F)
  pub leverage_set : List (Call F) → String → Bool
  pub uuid_text : ℕ → String
  pub entry_json : PendingEntry F → Option String
  pub entry_of_json : String → Option (PendingEntry F)

-- The JSON of a pending entry, by its trade id, and the time at which Redis drops it.
pub record StoredEntry : Type 0 where
  pub id : ℕ
  pub json : String
  pub gone_at : ℕ

-- `cooldowns`, `trades` and `results` list what was written, the latest first.
pub record World (F : Type 0) : Type 0 where
  pub calls : List (Call F)
  pub active : List (Position F)
  pub entries : List StoredEntry
  pub protections : List (PendingProtection F)
  pub kill_switch : Bool
  pub daily_losses : ℕ
  pub cached_balance : Option (Balance F)
  pub cooldowns : List (String × ℕ)
  pub trades : List (Trade F)
  pub results : List (ℕ × ExitInfo F)
  pub force_closes : List (String × String)

module _ {F : Type 0} where
  abbrev pub find_position : String → List (Position F) → Option (Position F)
  find_position s [] = none
  find_position s (p ∷ ps) = if str_eq p.symbol s then some p else find_position s ps

  -- `HSET` under the position's symbol.
  abbrev pub store_position : Position F → List (Position F) → List (Position F)
  store_position p [] = p ∷ []
  store_position p (q ∷ qs) = if str_eq q.symbol p.symbol then p ∷ qs else q ∷ store_position p qs

  -- `HDEL`.
  abbrev pub drop_position : String → List (Position F) → List (Position F)
  drop_position s ps = keep (λ p. not (str_eq p.symbol s)) ps

  abbrev pub get_active_position : String → World F → Option (Position F)
  get_active_position s w = find_position s w.active

  abbrev pub set_active_position : Position F → World F → World F
  set_active_position p w = record w { active = store_position p w.active }

  -- `HSETNX`.
  abbrev pub set_active_position_if_absent : Position F → World F → World F
  set_active_position_if_absent p w = elim (get_active_position p.symbol w) [
    | none ↦ set_active_position p w
    | some _ ↦ w
  ]

  abbrev pub remove_position : String → World F → World F
  remove_position s w = record w { active = drop_position s w.active }

  abbrev pub incr_daily_loss_count : World F → World F
  incr_daily_loss_count w = record w { daily_losses = w.daily_losses + 1 }

  abbrev pub set_symbol_cooldown : String → ℕ → World F → World F
  set_symbol_cooldown s d w = record w { cooldowns = (s, d) ∷ w.cooldowns }

  abbrev pub find_protection : String → List (PendingProtection F) → Option (PendingProtection F)
  find_protection s [] = none
  find_protection s (p ∷ ps) = if str_eq p.symbol s then some p else find_protection s ps

  abbrev pub get_pending_protection : String → World F → Option (PendingProtection F)
  get_pending_protection s w = find_protection s w.protections

  abbrev pub remove_pending_protection : String → World F → World F
  remove_pending_protection s w = record w {
    protections = keep (λ p. not (str_eq p.symbol s)) w.protections;
  }

  abbrev pub set_pending_protection : PendingProtection F → World F → World F
  set_pending_protection p w = record w {
    protections = p ∷ (remove_pending_protection p.symbol w).protections;
  }

  abbrev pub remove_pending_entry : ℕ → World F → World F
  remove_pending_entry id w = record w { entries = keep (λ o. not (o.id == id)) w.entries }

  abbrev pub insert_trade : Trade F → World F → World F
  insert_trade t w = record w { trades = t ∷ w.trades }

  abbrev pub update_result : ℕ → ExitInfo F → World F → World F
  update_result id exit w = record w { results = (id, exit) ∷ w.results }

  module _ (x : Exchange F) where
    -- `SetPendingEntry`, whose time to live is 60 s if the entry has expired already. Nothing is stored
    -- if the entry has no JSON.
    abbrev pub set_pending_entry : ℕ → PendingEntry F → World F → World F
    set_pending_entry now e w =
        let gone_at = if leb e.expires_at now then now + 60_000_000_000 else e.expires_at in
        elim (x.entry_json e) [
          | none ↦ w
          | some text ↦ record w {
            entries =
                record { id = e.trade_id; json = text; gone_at = gone_at }
                ∷ (remove_pending_entry e.trade_id w).entries;
          }
        ]

    -- The text under a key, which is that of a trade id.
    abbrev pub find_entry : ℕ → String → List StoredEntry → Option String
    find_entry now key [] = none
    find_entry now key (o ∷ os) =
        if str_eq (x.uuid_text o.id) key && ltb now o.gone_at
        then some o.json
        else find_entry now key os

    -- `GetPendingEntry`; an error and no entry are both none, as its callers take them.
    abbrev pub get_pending_entry : ℕ → String → World F → Option (PendingEntry F)
    get_pending_entry now key w = elim (find_entry now key w.entries) [
      | none ↦ none
      | some text ↦ x.entry_of_json text
    ]

    abbrev pub place_order : Call F → World F → Option (OrderResult F) × World F
    place_order c w = (x.place w.calls c, record w { calls = c ∷ w.calls })

    abbrev pub cancel : String → String → World F → Bool × World F
    cancel symbol id w =
        (x.cancel w.calls symbol id, record w { calls = cancel_order symbol id ∷ w.calls })

    -- `if id != "" { _ = CancelOrder(…) }`
    abbrev pub cancel_known : String → String → World F → World F
    cancel_known symbol id w = if str_eq id "" then w else (cancel symbol id w).1
