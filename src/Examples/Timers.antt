-- ===== src/Examples/Timers.antt =====
-- The timer service over the store in memory, with a callback that fails and one that does not.
use skald.Prelude.{
  ◌+◌, ◌%◌, ◌^◌, ◌≡◌, refl, Bool, true, false, none, some, List, [], ◌∷◌, ◌==◌, ◌||◌, ◌∙◌, arith,
}
use skald.Prelude.Int.{pos}
use skald.Prelude.GoMap
use skald.History.Event.{Event}
use skald.Persistence.Record.{TimerRecord, TimerKey, timer_key_eq, user}
use skald.Persistence.Store.{Store, new_store, upsert_timer, delete_timer}
use skald.Persistence.Maintenance.{delete_each}
use skald.Timers.{Around, Service, new_service, scan}
use skald.Timers.Delivery.{scan_keeps, scan-counters}
use skald.Timers.Progress.{scan_reaches}
use skald.Examples.Data.{whole_floats}

abbrev timer : TimerRecord
timer = record {
  key = record {
    namespace = "default";
    workflow_id = "order-7";
    run_id = "run-1";
    event_id = 6;
    kind = user;
  };
  fire_at = pos 50;
  attempt = pos 0;
  task_queue = "orders";
}

-- The callback answers `b`; the timer is due, and stands in the index.
abbrev world : Bool → Around (Store Event)
world b = record {
  due_timers = λ t n s. (some (timer ∷ []), s);
  delete_timer = λ k s. (true, delete_each (k ∷ []) s);
  dispatch = λ rec s. (b, s);
  now = λ s. pos 60;
  cancelled = λ s. false;
}

abbrev indexed : Store Event
indexed =
    upsert_timer (record { namespace = "default"; workflow_id = "order-7"; run_id = "run-1" }) timer
      new_store

abbrev service : Service
service =
    new_service whole_floats
      (record { interval = pos 0; jitter_fraction = 0; batch_size = pos 0; max_backoff = pos 0 })

abbrev InIndex : Store Event → Type 0
InIndex s = GoMap.get s.timers timer.key ≡ some timer

abbrev Gone : Store Event → Type 0
Gone s = GoMap.get s.timers timer.key ≡ none

delete-InIndex :
    (j : TimerKey) (s : Store Event)
    → (j == timer.key) ≡ false
    → InIndex s
    → InIndex (delete_each (j ∷ []) s)
unfolding delete_each delete_timer
delete-InIndex j s other h = GoMap.get-delete s.timers j timer.key ∙ rw other h

delete-Gone : (j : TimerKey) (s : Store Event) → Gone s → Gone (delete_each (j ∷ []) s)
unfolding delete_each delete_timer
delete-Gone j s h = GoMap.get-delete s.timers j timer.key ∙ ground (arith, h)

delete_self-Gone : (s : Store Event) → Gone (delete_each (timer.key ∷ []) s)
unfolding delete_each delete_timer
delete_self-Gone s = GoMap.get-delete_self s.timers timer.key

indexed-InIndex : InIndex indexed
unfolding upsert_timer
indexed-InIndex = GoMap.get-put_self (new_store {B = Event}).timers timer.key timer

scan_keeps_example : InIndex (scan (world false) service indexed).2
scan_keeps_example =
    scan_keeps (world false) InIndex timer.key (λ t n s h. h) (λ rec s h. h) delete-InIndex
      (λ rec s e. refl) service indexed indexed-InIndex

-- The store, and the keys of the timers that the callback was called for, the last one first.
abbrev Logged : Type 0
Logged = Store Event × List TimerKey

abbrev logging : Around Logged
logging = record {
  due_timers = λ t n w. (some (timer ∷ []), w);
  delete_timer = λ k w. (true, (delete_each (k ∷ []) w.0, w.1));
  dispatch = λ rec w. (true, (w.0, rec.key ∷ w.1));
  now = λ w. pos 60;
  cancelled = λ w. false;
}

abbrev is_logged : List TimerKey → Bool
is_logged [] = false
is_logged (k ∷ ks) = k == timer.key || is_logged ks

abbrev Called : Logged → Type 0
Called w = is_logged w.1 ≡ true

calls :
    (rec : TimerRecord) (w : Logged)
    → (rec.key == timer.key) ≡ true
    → Called (logging.dispatch rec w).1
calls rec w e = rw e refl

dispatch-Called : (rec : TimerRecord) (w : Logged) → Called w → Called (logging.dispatch rec w).1
dispatch-Called rec w h = ground (arith, h)

scan_reaches_example :
    Called (scan logging service (indexed, [])).2 × Gone (scan logging service (indexed, [])).2.0
scan_reaches_example =
    scan_reaches logging Called (λ w. Gone w.0) timer.key service (indexed, []) (timer ∷ [])
      (λ w. refl) (λ rec w. refl) calls (λ rec w h. (dispatch-Called rec w h.0, h.1))
      (λ j w h. (h.0, delete-Gone j w.0 h.1)) (λ w h. (h, delete_self-Gone w.0)) refl refl

scan-counters_example :
    ((scan (world true) service indexed).1.dispatched
        + (service.counters.deleted + service.counters.dispatch_errors
            + service.counters.store_errors))
      % 2 ^ 64
    ≡ (service.counters.dispatched
        + ((scan (world true) service indexed).1.deleted
            + (scan (world true) service indexed).1.dispatch_errors
            + (scan (world true) service indexed).1.store_errors))
      % 2 ^ 64
scan-counters_example = scan-counters (world true) service indexed (timer ∷ []) refl
