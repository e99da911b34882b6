-- ===== src/Execution/Monitor.antt =====
-- internal/execution/position_manager.go: `check` and `checkAll`, the tick over the open positions.
-- `forceSLEngine.EvaluatePosition` asks a language model: its verdict is an argument, and the request
-- that `checkForceSL` builds for it is not modelled. A tick reads the clock once.
pub mod Gate
use Prim.Native.String.{String}
use text.Mathlib.Text.{◌==◌ as str_eq}
use binance_futures.Base.{
  ℕ, suc, ◌+◌, ◌*◌, Bool, true, false, not, ◌&&◌, ◌||◌, Option, none, some, List, [], ◌∷◌, leb,
  if◌then◌else◌,
}
use binance_futures.Base.Int.{pos}
use binance_futures.Float64.{Float64, nought, hundred}
use binance_futures.Domain.{Position, PendingProtection}
use binance_futures.Scheduler.{second, minute}
use binance_futures.Execution.World.{
  Config, Exchange, World, place_order, cancel_known, get_active_position, get_pending_protection,
  set_active_position,
}
use binance_futures.Execution.Entry.{stop_market_request}
use binance_futures.Execution.Protection.{force_close, retry_protection}
use binance_futures.Execution.Fills.{check_paper_fills}
use binance_futures.Execution.Settlement.{known_price}

-- `time.Since(t) >= d`, where the zero time is long past.
abbrev pub since_at_least : ℕ → Option ℕ → ℕ → Bool
since_at_least now none d = true
since_at_least now (some t) d = leb (t + d) now

module _ {F : Type 0} ⦃f : Float64 F⦄ where
  open f use {add, sub, mul, div, lt, le, eq}

  module _ (c : Config F) (x : Exchange F) (now : ℕ) where
    abbrev pub force_sl_interval : F → ℕ
    force_sl_interval raw =
        (if lt raw c.force_sl_escalate_pnl_pct
          then c.force_sl_fast_interval_sec
          else c.force_sl_slow_interval_sec)
        * second

    unfoldable pub should_check_force_sl : Position F → F → Bool
    should_check_force_sl p raw =
        if not (leb (p.opened_at + c.force_sl_start_min * minute) now)
        then false
        else if le c.force_sl_pnl_gate_pct raw
        then false
        else since_at_least now p.last_force_sl_check (force_sl_interval raw)

    -- The position so far, and whether it is to be written.
    pub record Progress : Type 0 where
      pub position : Position F
      pub updated : Bool

    abbrev pub track_high : F → Position F → Progress
    track_high price p =
        if lt p.high_since_entry price
        then record { position = record p { high_since_entry = price }; updated = true }
        else record { position = p; updated = false }

    abbrev pub track_low : F → Progress → Progress
    track_low price g =
        if eq g.position.low_since_entry nought || lt price g.position.low_since_entry
        then record { position = record g.position { low_since_entry = price }; updated = true }
        else g

    abbrev pub raw_pnl_pct : F → Position F → F
    raw_pnl_pct price p = mul (div (sub p.entry_price price) p.entry_price) hundred

    -- A paid funding fee raises the activation and lowers the stop.
    abbrev pub breakeven_activation : Position F → F
    breakeven_activation p =
        if p.funding_fee_paid
        then add c.breakeven_activation_pct (mul p.funding_fee_paid_pct hundred)
        else c.breakeven_activation_pct

    abbrev pub breakeven_price : Position F → F
    breakeven_price p =
        if p.funding_fee_paid
        then sub p.entry_price (mul p.funding_fee_paid_pct p.entry_price)
        else p.entry_price

    abbrev pub is_breakeven_due : F → Position F → Bool
    is_breakeven_due raw p =
        not p.breakeven_moved
        && not p.tp1_filled
        && lt (breakeven_activation p) raw
        && leb (p.opened_at + 10 * minute) now

    -- `none` is the early return.
    unfoldable pub move_to_breakeven : Progress → World F → Option Progress × World F
    move_to_breakeven g w =
        let p = g.position in
        let w' = cancel_known x p.symbol p.sl_order_id w in
        let (order, v) = place_order x (stop_market_request p.symbol (breakeven_price p)) w' in
        elim order [
          | none ↦ (none, v)
          | some o ↦ (
            some (record {
              position = record p {
                stop_loss = p.entry_price;
                breakeven_moved = true;
                sl_order_id = o.client_order_id;
              };
              updated = true;
            }),
            v,
          )
        ]

    abbrev pub write_back : Progress → World F → World F
    write_back g w = if g.updated then set_active_position g.position w else w

    -- Paper fills, then the write.
    unfoldable pub finish_check : F → Option Progress → World F → World F
    finish_check price none w = w
    finish_check price (some g) w =
        if not g.position.is_paper
        then write_back g w
        else let (closed, p, w') = check_paper_fills c x now g.position price w in
          if closed then w' else write_back (record g { position = p }) w'

    -- From the breakeven stop on.
    unfoldable pub check_breakeven : F → Progress → World F → World F
    unfolding move_to_breakeven finish_check
    check_breakeven price g w =
        if is_breakeven_due (raw_pnl_pct price g.position) g.position
        then (let (g', w') = move_to_breakeven g w in finish_check price g' w')
        else finish_check price (some g) w

    -- The engine, if there is one, and its verdict.
    module _ (engine : Option (Position F → F → Bool)) (client_id : String) where
      abbrev pub asks : F → Position F → Bool
      asks raw p = c.force_sl_enabled && not p.tp1_filled && should_check_force_sl p raw

      abbrev pub note_check : Progress → Progress
      note_check g = record {
        position = record g.position {
          last_force_sl_check = some now;
          force_sl_count = suc g.position.force_sl_count;
        };
        updated = true;
      }

      -- From the forced stop on.
      unfoldable pub check_force : Option (Position F → F → Bool) → F → Progress → World F → World F
      unfolding check_breakeven
      check_force none price g w = check_breakeven price g w
      check_force (some verdict) price g w =
          let raw = raw_pnl_pct price g.position in
          if not (asks raw g.position)
          then check_breakeven price g w
          else if verdict g.position price
          then force_close c x g.position client_id w
          else check_breakeven price (note_check g) w

      -- The position when `retryProtection` has run, as the cache has it then.
      abbrev pub reload : Position F → World F → Position F
      reload p w = elim (get_active_position p.symbol w) [ none ↦ p | some fresh ↦ fresh ]

      abbrev pub retry_missing :
          Option (PendingProtection F) → Position F → World F → Position F × World F
      retry_missing none p w = (p, w)
      retry_missing (some pp) p w =
          let w' = retry_protection c x now client_id p pp w in (reload p w', w')

      abbrev check_priced : Option F → Position F → World F → World F
      unfolding check_force
      check_priced none p w = w
      check_priced (some price) p w =
          let (q, w') = retry_missing (get_pending_protection p.symbol w) p w in
          check_force engine price (track_low price (track_high price q)) w'

      unfoldable pub check : Option F → String → World F → World F
      unfolding check_priced
      check price symbol w = elim (get_active_position symbol w) [
        | none ↦ w
        | some p ↦ check_priced (known_price price) p w
      ]

    module _ (engine : Option (Position F → F → Bool)) (client_id : String → String)
        (price : String → Option F) where
      abbrev check_each : List (Position F) → World F → World F
      unfolding check
      check_each [] w = w
      check_each (p ∷ ps) w =
          check_each ps (check engine (client_id p.symbol) (price p.symbol) p.symbol w)

      pub check_all : World F → World F
      unfolding check_each
      check_all w = check_each w.active w
