-- ===== src/App/Scan/Fires.antt =====
-- The tick at the end of `scanFn`.
use binance_futures.Base.{◌≡◌, ◌≢◌, ◌<◌, ◌≤◌, refl, true, List}
use binance_futures.Base.Int.{◌≤ℤ◌, sub_ℕ}
use binance_futures.Base.Sorting.{IsSort}
use binance_futures.Float64.{Float64}
use binance_futures.Intent.{TradeIntent, fired_count, fire_limit, window_ready}
use binance_futures.Intent.Laws.{IsValid}
use binance_futures.Intent.Served.{Serves, enqueue-Serves}
use binance_futures.Scheduler.{WindowType, next_funding_time}
use binance_futures.App.Asking.{Orders, enqueued}
use binance_futures.App.Scan.{scan_fn}
use binance_futures.App.Scan.Enqueues.{scan_fn_enqueues}
use binance_futures.App.State.{AppState, Inputs, Moment, ScanConfig}

module _ {F : Type 0} ⦃f : Float64 F⦄ (cfg : ScanConfig F) (e : Inputs F) (o : Orders F)
    (w : WindowType) where
  -- A scan that enqueues an intent which the window reaches fires in its own tick, and first an intent
  -- at least as confident, on a well-formed queue below the limit of the window, with the intent not
  -- expired at the tick and, in FRONTRUN, the settlement near enough. So it does right after an earlier
  -- fire too, as the code waits for no interval and allows two fires in FRONTRUN and LAST_MINUTE.
  pub scan_fn_fires :
      IsSort o.by_rate
      → IsSort o.by_score
      → IsSort o.by_confidence
      → (st : AppState F) (i : TradeIntent F) (fires : List (TradeIntent F))
      → (scan_fn cfg e o w st).0 ≡ enqueued i fires
      → IsValid st.queue
      → window_ready w i.target_entry_mode ≡ true
      → e.clock Moment.at_queue_tick ≤ i.expires_at
      → w ≢ WindowType.closed
      → fired_count st.queue.fired_in_window w < fire_limit o.by_confidence e.surroundings w
      → (w ≡ WindowType.frontrun
          → sub_ℕ (next_funding_time (e.clock Moment.at_settlement)) (e.clock Moment.at_tick)
            ≤ℤ st.queue.frontrun_fire_window)
      → Serves i fires
  scan_fn_fires rates scores laws st i fires h v r l c n t =
      let (_, _, handed) = scan_fn_enqueues cfg e o w rates scores st i fires h in
      rw handed.ticked (
        enqueue-Serves o.by_confidence laws e.surroundings (e.clock Moment.at_queue_tick) w _ i
          st.queue (rw handed.status refl) v r l c n t)
