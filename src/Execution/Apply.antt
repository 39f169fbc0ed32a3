-- ===== src/Execution/Apply.antt =====
-- MutableState.apply, AppendEvent and Rebuild of internal/execution/mutablestate.go. A branch of
-- `apply` that returns an error has changed nothing, so an error carries no state.
use skald.Prelude.{
  ℕ, ◌+◌, Bool, true, false, not, Option, none, some, [], ◌∷◌, ◌==◌, nat_eq, string_eq,
  if◌then◌else◌, Outcome, ok, err, ◌>>=◌, ◌>>◌, refuse_if, or_refuse,
}
use skald.Prelude.Int.{ℤ, pos, ◌+ℤ◌, ltb_ℤ}
use skald.Prelude.GoMap
use skald.Prelude.GoMap.{GoMap}
use skald.Values.Status
use skald.Values.Status.{WorkflowStatus, is_terminal_status}
use skald.History.Attributes.{
  Attributes, no_attributes, WorkflowExecutionStarted, ActivityTaskScheduled, ActivityTaskStarted,
  TimerStarted, workflow_execution_started, workflow_execution_completed, workflow_execution_failed,
  workflow_execution_timed_out, workflow_execution_canceled, workflow_execution_terminated,
  workflow_execution_continued_as_new, workflow_execution_cancel_requested,
  workflow_execution_signaled, workflow_task_scheduled, workflow_task_started,
  workflow_task_completed, workflow_task_failed, workflow_task_timed_out, activity_task_scheduled,
  activity_task_started, activity_task_completed, activity_task_failed, activity_task_timed_out,
  activity_task_cancel_requested, activity_task_canceled, timer_started, timer_fired,
  timer_canceled, marker_recorded,
}
use skald.History.Event.{History, Time}
use skald.Execution.State.{
  ActivityState, MutableState, ExecError, illegal, zero_time, no_task, is_started, task_scheduled,
  task_started, already_started, task_already_scheduled, no_task_to_start, no_task_to_complete,
  no_task_to_fail, activity_not_pending, activity_already_started, activity_id_pending,
  timer_already_pending, timer_not_pending, no_transition_defined,
}

abbrev null : History → Bool
null [] = true
null (e ∷ es) = false

-- `if d > 0 { t = ev.Time.Add(d) }`
abbrev pub deadline_after : Time → ℤ → Time → Time
deadline_after time d otherwise = if ltb_ℤ (pos 0) d then time +ℤ d else otherwise

apply_started : MutableState → Time → WorkflowExecutionStarted → Outcome ExecError MutableState
apply_started s time a = do
  refuse_if (not (null s.events)) (illegal already_started)
  ok (record s {
    workflow_type = a.workflow_type;
    task_queue = a.task_queue;
    started_at = time;
    attempt = a.attempt;
    retry_policy = a.retry_policy;
    randomness_seed = a.randomness_seed;
    cron_schedule = a.cron_schedule;
    memo = a.memo;
    search_attrs = a.search_attrs;
    default_task_timeout = a.task_timeout;
    first_execution_run_id =
        if a.first_execution_run_id == "" then s.execution.run_id else a.first_execution_run_id;
    run_deadline = deadline_after time a.run_timeout s.run_deadline;
    execution_deadline = deadline_after time a.execution_timeout s.execution_deadline;
  })

unfoldable pub scheduled_activity : ℕ → Time → ActivityTaskScheduled → ActivityState
scheduled_activity id time a = record {
  scheduled_event_id = id;
  started_event_id = 0;
  activity_id = a.activity_id;
  activity_type = a.activity_type;
  task_queue = a.task_queue;
  attempt = pos 1;
  scheduled_at = time;
  started_at = zero_time;
  attempt_deadline = zero_time;
  schedule_to_close_deadline = deadline_after time a.schedule_to_close_timeout zero_time;
  heartbeat_deadline = zero_time;
  heartbeat_timeout = a.heartbeat_timeout;
  last_heartbeat_details = none;
  retry_policy = a.retry_policy;
  cancel_requested = false;
  request_id = "";
  last_failure = none;
  attributes = a;
}

abbrev is_some : {A : Type 0} → Option A → Bool
is_some none = false
is_some (some a) = true

unfoldable pub apply_activity_scheduled :
    MutableState → ℕ → Time → ActivityTaskScheduled → Outcome ExecError MutableState
unfolding scheduled_activity
apply_activity_scheduled s id time a = do
  refuse_if (is_some (GoMap.get s.activity_ids a.activity_id)) (illegal activity_id_pending)
  ok (record s {
    activities = GoMap.put s.activities id (scheduled_activity id time a);
    activity_ids = GoMap.put s.activity_ids a.activity_id id;
  })

-- The writes through `act` when its attempt starts.
unfoldable pub started_activity : ℕ → Time → ActivityTaskStarted → ActivityState → ActivityState
started_activity id time a act = record act {
  started_event_id = id;
  started_at = time;
  attempt = a.attempt;
  request_id = a.request_id;
  attempt_deadline = deadline_after time act.attributes.start_to_close_timeout act.attempt_deadline;
  heartbeat_deadline = deadline_after time act.heartbeat_timeout act.heartbeat_deadline;
}

unfoldable pub apply_activity_started :
    MutableState → ℕ → Time → ActivityTaskStarted → Outcome ExecError MutableState
unfolding started_activity
apply_activity_started s id time a = do
  act ← or_refuse (GoMap.get s.activities a.scheduled_event_id) (illegal activity_not_pending)
  refuse_if (is_started act) (illegal activity_already_started)
  ok (record s {
    activities = GoMap.put s.activities a.scheduled_event_id (started_activity id time a act);
  })

unfoldable pub close_activity : MutableState → ℕ → Outcome ExecError MutableState
close_activity s id = do
  act ← or_refuse (GoMap.get s.activities id) (illegal activity_not_pending)
  ok (record s {
    activities = GoMap.delete s.activities id;
    activity_ids = GoMap.delete s.activity_ids act.activity_id;
  })

unfoldable pub apply_timer_started :
    MutableState → ℕ → Time → TimerStarted → Outcome ExecError MutableState
apply_timer_started s id time a = do
  refuse_if (is_some (GoMap.get s.timer_ids a.timer_id)) (illegal timer_already_pending)
  ok (record s {
    timers = GoMap.put s.timers id (record {
      started_event_id = id;
      timer_id = a.timer_id;
      fire_at = time +ℤ a.start_to_fire_timeout;
    });
    timer_ids = GoMap.put s.timer_ids a.timer_id id;
  })

unfoldable pub close_timer : MutableState → ℕ → Outcome ExecError MutableState
close_timer s id = do
  t ← or_refuse (GoMap.get s.timers id) (illegal timer_not_pending)
  ok (record s {
    timers = GoMap.delete s.timers id;
    timer_ids = GoMap.delete s.timer_ids t.timer_id;
  })

-- MutableState.close
unfoldable pub close : MutableState → WorkflowStatus → Time → MutableState
close s status at = record s {
  status = status;
  closed_at = at;
  activities = GoMap.empty;
  activity_ids = GoMap.empty;
  timers = GoMap.empty;
  timer_ids = GoMap.empty;
  workflow_task = no_task;
}

-- A failed or timed out workflow task.
unfoldable pub drop_task : MutableState → Outcome ExecError MutableState
drop_task s = do
  refuse_if (not (task_started s.workflow_task)) (illegal no_task_to_fail)
  ok (record s { workflow_task = no_task })

unfoldable pub request_activity_cancel : MutableState → ℕ → Outcome ExecError MutableState
request_activity_cancel s id = do
  act ← or_refuse (GoMap.get s.activities id) (illegal activity_not_pending)
  ok (record s { activities = GoMap.put s.activities id (record act { cancel_requested = true }) })

-- MutableState.apply of the event with this id, time and attributes.
unfoldable pub apply : MutableState → ℕ → Time → Attributes → Outcome ExecError MutableState
unfolding apply_started apply_activity_scheduled apply_activity_started close_activity
    apply_timer_started close_timer close drop_task request_activity_cancel
apply s id time (workflow_execution_started a) = apply_started s time a
apply s id time (workflow_task_scheduled a) = do
  refuse_if (not (s.workflow_task.scheduled_event_id == 0)) (illegal task_already_scheduled)
  ok (record s {
    workflow_task = record no_task {
      scheduled_event_id = id;
      attempt = a.attempt;
      scheduled_at = time;
      task_queue = a.task_queue;
      timeout = a.start_to_close_timeout;
    };
  })
apply s id time (workflow_task_started a) = do
  refuse_if (not (task_scheduled s.workflow_task)) (illegal no_task_to_start)
  ok (record s {
    workflow_task = record s.workflow_task {
      started_event_id = id;
      started_at = time;
      request_id = a.request_id;
      deadline = time +ℤ s.workflow_task.timeout;
    };
  })
apply s id time (workflow_task_completed a) = do
  refuse_if (not (task_started s.workflow_task)) (illegal no_task_to_complete)
  ok (record s { workflow_task = no_task })
apply s id time (workflow_task_failed a) = drop_task s
apply s id time (workflow_task_timed_out a) = drop_task s
apply s id time (activity_task_scheduled a) = apply_activity_scheduled s id time a
apply s id time (activity_task_started a) = apply_activity_started s id time a
apply s id time (activity_task_completed a) = close_activity s a.scheduled_event_id
apply s id time (activity_task_failed a) = close_activity s a.scheduled_event_id
apply s id time (activity_task_timed_out a) = close_activity s a.scheduled_event_id
apply s id time (activity_task_canceled a) = close_activity s a.scheduled_event_id
apply s id time (activity_task_cancel_requested a) = request_activity_cancel s a.scheduled_event_id
apply s id time (timer_started a) = apply_timer_started s id time a
apply s id time (timer_fired a) = close_timer s a.started_event_id
apply s id time (timer_canceled a) = close_timer s a.started_event_id
apply s id time (marker_recorded a) = ok s
apply s id time (workflow_execution_signaled a) =
    ok (record s { signal_count = s.signal_count + 1 })
apply s id time (workflow_execution_cancel_requested a) =
    if s.cancel_requested
    then ok s
    else ok (record s { cancel_requested = true; cancel_reason = a.reason })
apply s id time (workflow_execution_completed a) = ok (close s Status.completed time)
apply s id time (workflow_execution_failed a) = ok (close s Status.failed time)
apply s id time (workflow_execution_timed_out a) = ok (close s Status.timed_out time)
apply s id time (workflow_execution_canceled a) = ok (close s Status.canceled time)
apply s id time (workflow_execution_terminated a) = ok (close s Status.terminated time)
apply s id time (workflow_execution_continued_as_new a) = ok (close s Status.continued_as_new time)
apply s id time no_attributes = err (illegal no_transition_defined)
