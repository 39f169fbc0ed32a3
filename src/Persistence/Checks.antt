-- ===== src/Persistence/Checks.antt =====
-- The validation of requests in internal/persistence/memory/memory.go.
use skald.Prelude.{
  ℕ, ◌+◌, string_eq, Bool, true, false, not, none, some, List, [], ◌∷◌, ◌==◌, ◌||◌, nat_eq,
  if◌then◌else◌, Outcome, ok, err, panic, refuse_if, ◌>>◌,
}
use skald.Prelude.Int.{pos, ltb_ℤ, int_eq}
use skald.Values.Status.{is_terminal_status}
use skald.History.Event.{History, Time, last?, last_event_id}
use skald.History.Validate.{Invalid, validate, is_nil_attrs}
use skald.Persistence.Record.{
  ExecutionRecord, is_open, TimerKey, TimerRecord, CreateExecutionRequest,
}
use skald.Persistence.Store.{
  Run, RunKey, StoreError, invalid_identifier, no_events, wrong_first_event, closed_run, gap,
  nil_attrs, no_time, time_goes_back, invalid_history, clone_record,
}

-- events[len(events)-1].Time, for events that are not empty.
abbrev pub last_time : History → Time
last_time h = elim (last? h) [ none ↦ pos 0 | some e ↦ e.time ]

abbrev first_id : History → ℕ
first_id [] = 0
first_id (e ∷ es) = e.id

abbrev first_time : History → Time
first_time [] = pos 0
first_time (e ∷ es) = e.time

abbrev is_nil_history : History → Bool
is_nil_history [] = true
is_nil_history (e ∷ es) = false

abbrev validated : Outcome Invalid (Unit {0}) → Outcome StoreError (Unit {0})
validated (ok u) = ok u
validated (err e) = err (invalid_history e)
validated panic = panic

abbrev pub normalized : ExecutionRecord → History → ExecutionRecord
normalized r events = record (clone_record r) {
  version = 1;
  last_event_id = last_event_id events;
  first_execution_run_id =
      if r.first_execution_run_id == "" then r.run_id else r.first_execution_run_id;
  started_at = if r.started_at == pos 0 then first_time events else r.started_at;
  closed_at =
      if is_terminal_status r.status
      then if r.closed_at == pos 0 then last_time events else r.closed_at
      else pos 0;
}

-- validateCreate
unfoldable pub validate_create : CreateExecutionRequest → Outcome StoreError ExecutionRecord
validate_create req = do
  refuse_if (req.rec.namespace == "") invalid_identifier
  refuse_if (req.rec.workflow_id == "") invalid_identifier
  refuse_if (req.rec.run_id == "") invalid_identifier
  refuse_if (is_nil_history req.events) no_events
  validated (validate req.events)
  refuse_if (not (first_id req.events == 1)) wrong_first_event
  ok (normalized req.rec req.events)

-- checkTimerKey
unfoldable pub check_timer_key : RunKey → TimerKey → Outcome StoreError (Unit {0})
check_timer_key run k = do
  refuse_if
      (not (k.namespace == run.namespace)
        || (not (k.workflow_id == run.workflow_id) || not (k.run_id == run.run_id)))
      invalid_identifier
  refuse_if (k.event_id == 0) invalid_identifier

-- validateTimers: the times are written in UTC, and nothing else changes.
unfoldable pub validate_timers : RunKey → List TimerRecord → Outcome StoreError (Unit {0})
unfolding check_timer_key
validate_timers run [] = ok tt
validate_timers run (tr ∷ trs) = do
  check_timer_key run tr.key
  refuse_if (tr.fire_at == pos 0) no_time
  validate_timers run trs

-- The loop of AppendHistory over DeleteTimers.
unfoldable pub check_timer_keys : RunKey → List TimerKey → Outcome StoreError (Unit {0})
unfolding check_timer_key
check_timer_keys run [] = ok tt
check_timer_keys run (k ∷ ks) = do check_timer_key run k; check_timer_keys run ks

-- The loop of validateAppend: the next id is `want`.
unfoldable pub check_batch : ℕ → Time → History → Outcome StoreError (Unit {0})
check_batch want prev [] = ok tt
check_batch want prev (ev ∷ evs) = do
  refuse_if (not (ev.id == want)) gap
  refuse_if (is_nil_attrs ev.attrs) nil_attrs
  refuse_if (ev.time == pos 0) no_time
  refuse_if (ltb_ℤ ev.time prev) time_goes_back
  check_batch (want + 1) ev.time evs

-- validateAppend
unfoldable pub validate_append : {B : Type 0} → Run B → History → Outcome StoreError (Unit {0})
unfolding check_batch
validate_append r [] = ok tt
validate_append r (ev ∷ evs) = do
  refuse_if (not (is_open r.rec)) closed_run
  check_batch (r.rec.last_event_id + 1) r.last_event (ev ∷ evs)
