-- ===== src/App/Tests.antt =====
-- A scan of internal/app/scan.go over one symbol with eight flat candles, three minutes before the
-- settlement at 08:00 on 2024-02-14, a Wednesday.
use binance_futures.Scoring.{
  score_momentum_penalty, score_bullish_penalty, eval_rsi_divergence, eval_volume, eval_btc,
  eval_threshold, eval_interpolated,
}
use binance_futures.Indicators.Averages.{rsi}
use Prim.Native.String.{String}
use text.Mathlib.Text.{◌==◌ as str_eq}
use binance_futures.Base.{
  ◌≤◌, ◌&&◌, not, ◌↔◌, ◌⊎◌, ℕ, ◌≡◌, ◌*◌, ◌+◌, refl, arith, true, false, none, some, List, [], ◌∷◌,
}
use binance_futures.Base.Int.{ℤ, pos, negsuc}
use binance_futures.Base.Sorting.Insertion.{insertion, insertion-IsSort}
use binance_futures.Float64.Fixed.{fixed}
use binance_futures.Scanner.{scan, admit, build_candidate}
use binance_futures.Market.Candles.{get_candles}
use binance_futures.Market.Funding.{get_interval_hours}
use binance_futures.Indicators.Bearish.{detect_patterns}
use binance_futures.Indicators.Bullish.{detect_bullish_patterns}
use binance_futures.Indicators.Divergence.{detect_rsi_divergence}
use binance_futures.Intent.{has_pending_symbol, window_ready, Surroundings, TradeIntent, executed}
use binance_futures.Intent.Served.{Serves}
use binance_futures.Domain.{
  LlmDecision, IndicatorSnapshot, EntryMode, Candle, Timeframe, ScoringConfig,
}
use binance_futures.Samples.{candidate, coins, config, exchange, queue_of, world, intent}
use binance_futures.Risk.{PreCheckResult, pre_check}
use binance_futures.App.Asking.{skipped, Orders, ScanResult, enqueued, ask_model, act_on}
use binance_futures.App.Restricted.{
  NearMonday, EarlyInMonth, LateInMonth, is_restricted_day_iff, date_of, last_day,
  is_restricted_day,
}
use binance_futures.App.Scan.Enqueues.{Handed, scan_fn_enqueues}
use binance_futures.App.Scan.Fires.{scan_fn_fires}
use binance_futures.App.Scan.Frame.{Kept, scan_fn-Kept}
use binance_futures.App.Scan.Failures.{ask_model_failure}
use binance_futures.Market.Engine.{provider, MarketEngine}
use binance_futures.Indicators.Snapshot.{compute}
use binance_futures.Scoring.Composite.{score}
use binance_futures.Scoring.Candles.{score_candle_patterns}
use binance_futures.Llm.Decision.{
  evaluate, map_response_to_decision, LlmReply, answered, unavailable,
}
use binance_futures.Market.OpenInterest.{new_oi_cache}
use binance_futures.Scheduler.{next_funding_time, WindowType, day, hour, minute}
use binance_futures.App.State.{AppState, Inputs, ScanConfig}
use binance_futures.App.Scan.{scan_fn, filter_all, past_gate, score_all, evaluate_top, unless_empty}
use binance_futures.App.Filters.{filter_thin_order_book}
use binance_futures.App.Gates.{confidence_to_size}

abbrev now : ℕ
now = 19_767 * day + 7 * hour + 57 * minute

abbrev flat : Candle ℤ
flat = record {
  symbol = "BTCUSDT";
  timeframe = Timeframe.m5;
  open_time = 0;
  opening = coins 100;
  high = coins 100;
  low = coins 100;
  close = coins 100;
  volume = coins 10;
  close_time = 1;
  is_closed = true;
}

abbrev market : MarketEngine ℤ
market = record {
  funding =
      (record {
        symbol = "BTCUSDT";
        rate = negsuc 99;
        next_funding = none;
        mark_price = coins 100;
        updated_at = 0;
        interval_hours = 8;
      })
      ∷ [];
  ticker = λ _. some (coins 100);
  candles = record { series = λ _ _. flat ∷ flat ∷ flat ∷ flat ∷ flat ∷ flat ∷ flat ∷ flat ∷ [] };
  oi = new_oi_cache;
}

abbrev scoring : ScoringConfig ℤ
scoring = record {
  weights = record {
    funding = pos 0;
    oi = pos 0;
    oi_15m = pos 0;
    btc = pos 0;
    candle = pos 0;
    volume = pos 0;
    roi = coins 60;
    volatility = pos 0;
    rsi_divergence = pos 0;
  };
  thresholds =
      (record {
        category = "roi";
        tier_order = pos 1;
        min_value = none;
        max_value = none;
        multiplier = coins 1;
        interpolate = false;
        condition = "";
      })
      ∷ [];
  candle_weights = [];
  confidence_tiers = [];
}

abbrev settings : ScanConfig ℤ
settings = record {
  execution = config;
  risk = record {
    max_daily_losses = 4;
    max_atr_ratio = coins 3;
    btc_breakout_reject = true;
    min_composite_score = coins 50;
    min_score_override = coins 50;
    max_positions = 3;
  };
  funding = record { min_rate = negsuc 999; max_rate = negsuc 9; top_candidates = 5 };
  scoring = scoring;
  books = record {
    enabled = false;
    max_spread_bps = coins 10;
    depth_ratio_n = coins 3;
    depth_levels = 20;
    position_size_pct = coins 5;
  };
  min_volume_24h_m = pos 0;
  call_cooldown_secs = 30;
  top_candidates = 3;
  min_confidence = pos 65;
}

abbrev orders : Orders ℤ
orders = record {
  by_rate = insertion;
  by_minimum = insertion;
  by_score = insertion;
  by_confidence = insertion;
  visit = λ ts. ts;
}

abbrev quiet : Surroundings ℤ
quiet = record { result = λ _. executed; during = λ _. []; started = λ _. 10 }

abbrev inputs : LlmReply → Inputs ℤ
inputs reply = record {
  clock = λ _. now;
  on_cooldown = λ _. some false;
  checked = record {
    kill_switch = some false;
    active_positions = some [];
    daily_loss_count = some 0;
  };
  occupied = record {
    kill_switch = some false;
    active_positions = some [];
    daily_loss_count = some 0;
  };
  market = market;
  has_book_cache = true;
  exchange = exchange none;
  depth = λ _ _. none;
  book_ticker = λ _. none;
  similar = λ _. [];
  win_rates = λ _. [];
  ask = λ _. reply;
  surroundings = quiet;
  new_address = 5;
}

abbrev opens : LlmReply
opens = answered (record {
  action = "OPEN_SHORT";
  symbol = "BTCUSDT";
  confidence = pos 80;
  entry_mode = "LAST_MINUTE";
  entry_reasons = "overheated" ∷ [];
  warnings = [];
  skip_reason = "";
})

abbrev started : AppState ℤ
started = record { world = world []; queue = queue_of []; last_llm_call = none; books = λ _. none }

abbrev opened : ScanResult ℤ × AppState ℤ
opened = scan_fn settings (inputs opens) orders WindowType.last_minute started

abbrev intent_in : ScanResult ℤ → TradeIntent ℤ
intent_in (enqueued i _) = i
intent_in _ = intent 0 "" EntryMode.after 0

abbrev fires_in : ScanResult ℤ → List (TradeIntent ℤ)
fires_in (enqueued _ fires) = fires
fires_in _ = []

opened_lem :
    (opened.0 ≡ enqueued (intent_in opened.0) (fires_in opened.0))
    × (window_ready WindowType.last_minute (intent_in opened.0).target_entry_mode ≡ true)
    × (now ≤ (intent_in opened.0).expires_at)
unfolding scan_fn filter_all past_gate score_all evaluate_top ask_model act_on unless_empty
    is_restricted_day date_of last_day pre_check scan admit build_candidate provider compute score
    score_candle_patterns evaluate map_response_to_decision filter_thin_order_book
    confidence_to_size next_funding_time get_interval_hours get_candles rsi eval_interpolated
    eval_threshold eval_btc eval_volume eval_rsi_divergence score_bullish_penalty
    score_momentum_penalty detect_patterns detect_rsi_divergence detect_bullish_patterns
opened_lem = (refl, refl, omega arith)

scan_fn_enqueues_example :
    (is_restricted_day now ≡ false)
    × (pre_check settings.risk (inputs opens).checked ≡ PreCheckResult.passed)
    × Handed settings
        (inputs opens)
        orders
        WindowType.last_minute
        started.queue
        (intent_in opened.0)
        (fires_in opened.0)
scan_fn_enqueues_example =
    scan_fn_enqueues settings (inputs opens) orders WindowType.last_minute insertion-IsSort
      insertion-IsSort started (intent_in opened.0) (fires_in opened.0) opened_lem.0

scan_fn_fires_example : Serves (intent_in opened.0) (fires_in opened.0)
scan_fn_fires_example =
    scan_fn_fires settings (inputs opens) orders WindowType.last_minute insertion-IsSort
      insertion-IsSort insertion-IsSort started (intent_in opened.0) (fires_in opened.0)
      opened_lem.0 (record { all_pending = tt; distinct = tt; ranked = tt }) opened_lem.1
      opened_lem.2 (λ h. cc) (omega arith) (λ h. cc)

scan_fn-Kept_example : Kept started opened
scan_fn-Kept_example = scan_fn-Kept settings (inputs opens) orders WindowType.last_minute started

abbrev blank : IndicatorSnapshot ℤ
blank = compute (λ _ _. []) none 0 "BTCUSDT"

abbrev waiting : AppState ℤ
waiting = record started { queue = queue_of (intent 1 "BTCUSDT" EntryMode.last_minute 90 ∷ []) }

ask_model_failure_example :
    let x =
      ask_model settings
        (inputs (unavailable "timeout"))
        orders
        WindowType.last_minute
        ((candidate "BTCUSDT" 80, blank) ∷ [])
        waiting in
    ((d : LlmDecision) × (x.0 ≡ skipped d))
    × ((t : String)
        → has_pending_symbol t x.1.queue
          ≡ (not (str_eq t "BTCUSDT") && has_pending_symbol t waiting.queue))
ask_model_failure_example =
    ask_model_failure settings (inputs (unavailable "timeout")) orders WindowType.last_minute
      (candidate "BTCUSDT" 80) blank [] waiting refl refl

is_restricted_day_iff_example :
    (is_restricted_day now ≡ true) ↔ (NearMonday now ⊎ (EarlyInMonth now ⊎ LateInMonth now))
is_restricted_day_iff_example = is_restricted_day_iff now

leap_day : date_of 19_782 ≡ record { year = 2024; month = 2; day_of_month = 29 }
unfolding date_of
leap_day = refl

last_of_century : date_of 11_016 ≡ record { year = 2000; month = 2; day_of_month = 29 }
unfolding date_of
last_of_century = refl

epoch : date_of 0 ≡ record { year = 1970; month = 1; day_of_month = 1 }
unfolding date_of
epoch = refl
