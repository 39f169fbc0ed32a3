-- ===== src/Examples/Stores.antt =====
-- The store in memory at concrete requests; an event is its own encoding.
use skald.Prelude.{
  ℕ, ◌+◌, ◌-◌, ◌≡◌, ◌≢◌, sym, refl, true, false, Option, none, some, List, [], ◌∷◌, ok, err, String,
  string_eq, leb, ltb, length, get_elem?, if◌then◌else◌, ◌||◌, arith,
}
use skald.Prelude.Int.{pos, int_eq}
use skald.Prelude.GoMap
use skald.Values.Status.{WorkflowStatus, running, completed}
use skald.History.Attributes.{workflow_execution_started, workflow_execution_terminated}
use skald.History.Event.{Event, History, last_event_id}
use skald.Persistence.Record.{
  ExecutionRecord, CreateExecutionRequest, AppendHistoryRequest, allow_duplicate, is_open,
}
use skald.Persistence.Store.{
  Run, Store, run_key_eq, workflow_key_eq, new_store, key_of, workflow_of, version_conflict,
  upsert_timers, delete_timers_of, drop_run_timers, newer, already_started,
}
use skald.Persistence.Create.{create_execution, plan_create, encode_events, resolve_create}
use skald.Persistence.Checks.{
  validate_create, validate_timers, check_batch, check_timer_keys, validate_append,
}
use skald.History.Validate.{validate, check_events, check_event, validate_references}
use skald.Persistence.Plan.{apply_create}
use skald.Persistence.Create.Retried.{create_execution_again}
use skald.Persistence.Create.Skewed.{create_execution_skewed}
use skald.Persistence.Append.{
  append_history, requested, plan_successor, append_to, appended, check_append, resolve_successor,
  write_append,
}
use skald.Persistence.Append.Atomic.{append_history_atomic}
use skald.Persistence.Append.Versions.{append_history_once, append_history_closed}
use skald.Persistence.Append.Successor.{append_history_two_open}
use skald.Persistence.Reads.{read_history, select_range, lookup, decode_events}
use skald.Persistence.History.{read_history-append_history}
use skald.Persistence.Range.{select_range_lem}
use skald.Examples.Data.{started_attrs}

abbrev started : Event
started = record { id = 1; time = pos 5; attrs = workflow_execution_started started_attrs }

abbrev ended : Event
ended = record {
  id = 2;
  time = pos 6;
  attrs =
      workflow_execution_terminated record { reason = "done"; details = none; identity = "ops" };
}

abbrev row : String → ℕ → WorkflowStatus → ExecutionRecord
row run_id at status = record {
  namespace = "default";
  workflow_id = "order-7";
  run_id = run_id;
  workflow_type = "Order";
  task_queue = "orders";
  status = status;
  started_at = pos at;
  closed_at = pos 0;
  version = 0;
  last_event_id = 0;
  first_execution_run_id = "";
  memo = none;
  search_attrs = none;
}

abbrev start : String → ℕ → WorkflowStatus → String → CreateExecutionRequest
start run_id at status request_id = record {
  rec = row run_id at status;
  events = started ∷ [];
  timers = [];
  request_id = request_id;
  reuse_policy = allow_duplicate;
}

abbrev append : ℕ → History → Option CreateExecutionRequest → AppendHistoryRequest
append version events successor = record {
  namespace = "default";
  workflow_id = "order-7";
  run_id = "run-1";
  expected_version = version;
  events = events;
  rec = row "run-1" 100 running;
  upsert_timers = [];
  delete_timers = [];
  create_successor = successor;
}

abbrev one_open : Store Event
one_open = (create_execution some (start "run-1" 100 running "req-1") new_store).1

abbrev one_closed : Store Event
one_closed = (create_execution some (start "run-1" 100 completed "") new_store).1

create_facts :
    (rec : ExecutionRecord) × ((create_execution some
        (start "run-1" 100 running "req-1")
        new_store).0
      ≡ ok rec)
unfolding create_execution plan_create validate_create validate check_events check_event
    validate_references encode_events validate_timers resolve_create GoMap.get GoMap.put
    apply_create upsert_timers append_history plan_successor append_to last_event_id appended
    check_append resolve_successor write_append check_batch check_timer_keys validate_append
    delete_timers_of drop_run_timers newer GoMap.delete GoMap.delete_all
create_facts = (_, refl)

create_execution_again_example :
    create_execution some (start "run-1" 100 running "req-1") one_open
    ≡ (ok create_facts.0, one_open)
create_execution_again_example =
    create_execution_again some (start "run-1" 100 running "req-1") new_store create_facts.0 refl
      create_facts.1

append_facts :
    (rec : ExecutionRecord) × ((append_history some (append 1 (ended ∷ []) none) one_open).0
      ≡ ok rec)
unfolding create_execution plan_create validate_create validate check_events check_event
    validate_references encode_events validate_timers resolve_create GoMap.get GoMap.put
    apply_create upsert_timers append_history plan_successor append_to last_event_id appended
    check_append resolve_successor write_append check_batch check_timer_keys validate_append
    delete_timers_of drop_run_timers newer GoMap.delete GoMap.delete_all
append_facts = (_, refl)

append_history_once_example :
    ((append_history some
        (append 1 [] none)
        (append_history some (append 1 (ended ∷ []) none) one_open).1).1
      ≡ (append_history some (append 1 (ended ∷ []) none) one_open).1)
    × ((again : ExecutionRecord)
        → (append_history some
            (append 1 [] none)
            (append_history some (append 1 (ended ∷ []) none) one_open).1).0
          ≢ ok again)
append_history_once_example =
    append_history_once some (append 1 (ended ∷ []) none) (append 1 [] none) one_open append_facts.0
      refl refl refl append_facts.1

stale_facts : (append_history some (append 7 (ended ∷ []) none) one_open).0 ≡ err version_conflict
unfolding create_execution plan_create validate_create validate check_events check_event
    validate_references encode_events validate_timers resolve_create GoMap.get GoMap.put
    apply_create upsert_timers append_history plan_successor append_to last_event_id appended
    check_append resolve_successor write_append check_batch check_timer_keys validate_append
    delete_timers_of drop_run_timers newer GoMap.delete GoMap.delete_all
stale_facts = refl

append_history_atomic_example :
    (append_history some (append 7 (ended ∷ []) none) one_open).1 ≡ one_open
append_history_atomic_example =
    append_history_atomic some (append 7 (ended ∷ []) none) one_open version_conflict stale_facts

read_facts :
    read_history some (requested (append 1 (ended ∷ []) none)) (pos 1) (pos 0) one_open
    ≡ ok (started ∷ [])
unfolding read_history lookup select_range decode_events create_execution plan_create
    validate_create validate check_events check_event validate_references encode_events
    validate_timers resolve_create GoMap.get GoMap.put apply_create upsert_timers append_history
    plan_successor append_to last_event_id appended check_append resolve_successor write_append
    check_batch check_timer_keys validate_append delete_timers_of drop_run_timers newer GoMap.delete
    GoMap.delete_all
read_facts = refl

read_history-append_history_example :
    read_history some
      (requested (append 1 (ended ∷ []) none))
      (pos 1)
      (pos 0)
      (append_history some (append 1 (ended ∷ []) none) one_open).1
    ≡ ok (started ∷ ended ∷ [])
read_history-append_history_example =
    read_history-append_history some some (λ ev b h. sym h) (append 1 (ended ∷ []) none) one_open
      append_facts.0 (started ∷ []) refl read_facts append_facts.1

closed_facts :
    (run : Run Event) × (GoMap.get one_closed.runs (requested (append 1 [] none)) ≡ some run)
    × (is_open run.rec ≡ false)
    × (rec : ExecutionRecord) × ((append_history some (append 1 [] none) one_closed).0 ≡ ok rec)
unfolding create_execution plan_create validate_create validate check_events check_event
    validate_references encode_events validate_timers resolve_create GoMap.get GoMap.put
    apply_create upsert_timers append_history plan_successor append_to last_event_id appended
    check_append resolve_successor write_append check_batch check_timer_keys validate_append
    delete_timers_of drop_run_timers newer GoMap.delete GoMap.delete_all
closed_facts = (_, refl, refl, _, refl)

append_history_closed_example :
    (after : Run Event) × (GoMap.get
        (append_history some (append 1 [] none) one_closed).1.runs
        (requested (append 1 [] none))
      ≡ some after)
    × (after.events ≡ closed_facts.0.events)
    × (after.rec.status ≡ closed_facts.0.rec.status)
    × (after.rec.last_event_id ≡ closed_facts.0.rec.last_event_id)
append_history_closed_example =
    append_history_closed some (append 1 [] none) one_closed closed_facts.0 refl closed_facts.1
      closed_facts.2

-- A request that hands off to run-2 and leaves run-1 open.
abbrev next : CreateExecutionRequest
next = start "run-2" 200 running ""

-- The record of the same request, if it closed run-1.
abbrev closing : ExecutionRecord
closing = row "run-1" 100 completed

two_open_facts :
    (run : Run Event) × (GoMap.get one_open.runs (requested (append 1 [] (some next))) ≡ some run)
    × (is_open run.rec ≡ true)
    × (GoMap.get one_open.current (workflow_of next.rec)
        ≡ some (requested (append 1 [] (some next))))
    × (one_open.closed ≡ false)
    × (rec : ExecutionRecord) × ((append_history some
          (record (append 1 [] (some next)) { rec = closing })
          one_open).0
        ≡ ok rec)
unfolding create_execution plan_create validate_create validate check_events check_event
    validate_references encode_events validate_timers resolve_create GoMap.get GoMap.put
    apply_create upsert_timers append_history plan_successor append_to last_event_id appended
    check_append resolve_successor write_append check_batch check_timer_keys validate_append
    delete_timers_of drop_run_timers newer GoMap.delete GoMap.delete_all
two_open_facts = (_, refl, refl, refl, refl, _, refl)

append_history_two_open_example :
    (out : ExecutionRecord) × ((append_history some (append 1 [] (some next)) one_open).0 ≡ ok out)
    × (before after : Run Event) × (GoMap.get
          (append_history some (append 1 [] (some next)) one_open).1.runs
          (requested (append 1 [] (some next)))
        ≡ some before)
    × (GoMap.get (append_history some (append 1 [] (some next)) one_open).1.runs (key_of next.rec)
        ≡ some after)
    × (is_open before.rec ≡ true)
    × (is_open after.rec ≡ true)
    × (requested (append 1 [] (some next)) ≢ key_of next.rec)
    × (◌≡◌ {A = String} "default" "default")
    × (◌≡◌ {A = String} "order-7" "order-7")
append_history_two_open_example =
    append_history_two_open some (append 1 [] (some next)) closing next one_open two_open_facts.0
      two_open_facts.5 refl refl refl two_open_facts.4 two_open_facts.1 two_open_facts.3
      two_open_facts.2 refl refl two_open_facts.6

-- The clock of the second start is behind that of the first.
skewed_facts :
    (prev : Run Event) × (one_closed.closed ≡ false)
    × (GoMap.get one_closed.current (workflow_of next.rec)
        ≡ some (key_of (row "run-1" 100 completed)))
    × (GoMap.get one_closed.runs (key_of (row "run-1" 100 completed)) ≡ some prev)
    × (is_open prev.rec ≡ false)
    × (prev.rec.started_at ≡ pos 100)
    × (GoMap.get one_closed.runs (key_of next.rec) ≡ none)
    × (GoMap.get
          (create_execution some (start "run-2" 50 running "") one_closed).1.runs
          (key_of (row "run-3" 60 running))
        ≡ none)
    × (rec : ExecutionRecord) × ((create_execution some (start "run-2" 50 running "") one_closed).0
        ≡ ok rec)
unfolding create_execution plan_create validate_create validate check_events check_event
    validate_references encode_events validate_timers resolve_create GoMap.get GoMap.put
    apply_create upsert_timers append_history plan_successor append_to last_event_id appended
    check_append resolve_successor write_append check_batch check_timer_keys validate_append
    delete_timers_of drop_run_timers newer GoMap.delete GoMap.delete_all
skewed_facts = (_, refl, refl, refl, refl, refl, refl, refl, _, refl)

create_execution_skewed_example :
    (run : Run Event) × (GoMap.get
        (create_execution some (start "run-2" 50 running "") one_closed).1.runs
        (key_of (row "run-2" 50 running))
      ≡ some run)
    × (is_open run.rec ≡ true)
    × (GoMap.get
          (create_execution some (start "run-2" 50 running "") one_closed).1.current
          (workflow_of (row "run-2" 50 running))
        ≡ some (key_of (row "run-1" 100 completed)))
    × ((create_execution some
          (start "run-3" 60 running "")
          (create_execution some (start "run-2" 50 running "") one_closed).1).0
        ≢ err already_started)
create_execution_skewed_example =
    create_execution_skewed some (start "run-2" 50 running "") (start "run-3" 60 running "")
      one_closed (key_of (row "run-1" 100 completed)) skewed_facts.0 skewed_facts.8 skewed_facts.1
      skewed_facts.2 skewed_facts.3 skewed_facts.4 skewed_facts.6 (refl, refl) (refl, refl) refl
      refl (rw (skewed_facts.5)) refl skewed_facts.7 skewed_facts.9

abbrev three : List ℕ
three = 5 ∷ 6 ∷ 7 ∷ []

select_range_lem_example : get_elem? (select_range three (pos 2) (pos 9)) 1 ≡ (
    if leb (2 + 1) (if leb 9 0 || ltb (length three) 9 then length three else 9)
    then get_elem? three (2 + 1 - 1)
    else none)
select_range_lem_example = select_range_lem three 2 9 1 (omega arith)
