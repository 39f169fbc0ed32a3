-- ===== src/Execution/Transitions.antt =====
-- The single transitions of internal/execution/transitions.go and activity.go that compute with no
-- floats: starting a run, workflow tasks, signals, cancellation, timers, closing.
use skald.Prelude.{
  ℕ, String, Bool, true, false, not, Option, none, some, List, [], ◌∷◌, ◌==◌, nat_eq, string_eq,
  if◌then◌else◌,
}
use skald.Prelude.Int.{ℤ, pos, leb_ℤ, beq_ℤ}
use skald.Prelude.GoMap
use skald.Values.Payload.{Payload}
use skald.Values.Status.{WorkflowTaskFailedCause, RetryState, is_terminal_status}
use skald.Values.Errors.{ApplicationError, TimeoutKind, start_to_close}
use skald.History.Attributes.{
  Attributes, WorkflowExecutionStarted, workflow_execution_started, workflow_execution_timed_out,
  workflow_execution_terminated, workflow_execution_continued_as_new,
  workflow_execution_cancel_requested, workflow_execution_signaled, workflow_task_scheduled,
  workflow_task_started, workflow_task_failed, workflow_task_timed_out, timer_fired,
}
use skald.History.Event.{Event, History}
use skald.Execution.State.{
  MutableState, TimerState, Exec, task_scheduled, task_started, already_started, no_task_to_start,
  no_task_to_fail, no_events_to_patch, not_continued_as_new,
}
use skald.Execution.Append.{pure, refuse, gets, ◌>>=◌, ◌>>◌, refuse_when, modify, append_event}
use skald.Execution.Effect.{Effect, dispatch_workflow_task, dispatch_effect}

abbrev pub default_workflow_task_timeout : ℤ
default_workflow_task_timeout = pos 10_000_000_000

abbrev null : History → Bool
null [] = true
null (e ∷ es) = false

-- Start
unfoldable pub start : WorkflowExecutionStarted → Exec Event
start attrs = do
  fresh ← gets (λ s. null s.events)
  refuse_when (not fresh) already_started
  run_id ← gets (λ s. s.execution.run_id)
  append_event (
      workflow_execution_started (record attrs {
        attempt = if beq_ℤ attrs.attempt (pos 0) then pos 1 else attrs.attempt;
        first_execution_run_id =
            if attrs.first_execution_run_id == "" then run_id else attrs.first_execution_run_id;
      }))

-- The attributes that ScheduleWorkflowTask writes.
abbrev pub task_scheduled_attrs : MutableState → Attributes
task_scheduled_attrs s = workflow_task_scheduled (record {
  task_queue = s.task_queue;
  start_to_close_timeout =
      if leb_ℤ s.default_task_timeout (pos 0)
      then default_workflow_task_timeout
      else s.default_task_timeout;
  attempt = pos 1;
})

unfoldable pub add_task : Exec (Option Effect)
add_task = do
  queue ← gets (λ s. s.task_queue)
  attrs ← gets task_scheduled_attrs
  ev ← append_event attrs
  pure (some (dispatch_effect dispatch_workflow_task queue ev.id))

-- ScheduleWorkflowTask
unfoldable pub schedule_workflow_task : Exec (Option Effect)
schedule_workflow_task = do
  s ← gets (λ s. s)
  (if is_terminal_status s.status
      then pure none
      else if s.workflow_task.scheduled_event_id == 0
      then add_task
      else pure none)

abbrev to_list : {A : Type 0} → Option A → List A
to_list none = []
to_list (some a) = a ∷ []

-- wakeWorkflow
unfoldable pub wake_workflow : Exec (List Effect)
wake_workflow = do
  s ← gets (λ s. s)
  (if is_terminal_status s.status
      then pure []
      else (schedule_workflow_task >>= λ eff. pure (to_list eff)))

-- StartWorkflowTask
unfoldable pub start_workflow_task : String → String → Exec Event
start_workflow_task identity request_id = do
  task ← gets (λ s. s.workflow_task)
  refuse_when (not (task_scheduled task)) no_task_to_start
  append_event (
      workflow_task_started (record {
        scheduled_event_id = task.scheduled_event_id;
        identity = identity;
        request_id = request_id;
      }))

unfoldable pub fire_found : ℕ → Option TimerState → Exec (List Effect)
fire_found id none = pure []
fire_found id (some t) =
    append_event (timer_fired (record { timer_id = t.timer_id; started_event_id = id })) >>= λ _.
    wake_workflow

-- FireTimer
unfoldable pub fire_timer : ℕ → Exec (List Effect)
fire_timer id = do t ← gets (λ s. GoMap.get s.timers id); fire_found id t

-- Signal
unfoldable pub signal : String → Option Payload → String → Exec (List Effect)
signal name input identity =
    append_event (
      workflow_execution_signaled
        (record { signal_name = name; input = input; identity = identity }))
    >>= λ _. wake_workflow

-- RequestCancel
unfoldable pub request_cancel : String → String → Exec (List Effect)
request_cancel reason identity = do
  requested ← gets (λ s. s.cancel_requested)
  (if requested
      then pure []
      else (append_event
            (workflow_execution_cancel_requested (record { reason = reason; identity = identity }))
          >>= λ _. wake_workflow))

-- Terminate
unfoldable pub terminate : String → Option Payload → String → Exec (Unit {0})
terminate reason details identity =
    append_event (
      workflow_execution_terminated
        (record { reason = reason; details = details; identity = identity }))
    >>= λ _. pure tt

-- TimeoutExecution
unfoldable pub timeout_execution : TimeoutKind → Exec (Unit {0})
timeout_execution kind =
    append_event
      (workflow_execution_timed_out (record { kind = kind; retry_state = RetryState.timeout }))
    >>= λ _. pure tt

-- FailWorkflowTask
unfoldable pub fail_workflow_task :
    WorkflowTaskFailedCause → Option ApplicationError → String → Exec (List Effect)
fail_workflow_task cause failure identity = do
  task ← gets (λ s. s.workflow_task)
  refuse_when (not (task_started task)) no_task_to_fail
  _ ← append_event (
      workflow_task_failed (record {
        scheduled_event_id = task.scheduled_event_id;
        started_event_id = task.started_event_id;
        cause = cause;
        failure = failure;
        identity = identity;
      }))
  wake_workflow

-- TimeoutWorkflowTask
unfoldable pub timeout_workflow_task : Exec (List Effect)
timeout_workflow_task = do
  task ← gets (λ s. s.workflow_task)
  (if not (task_started task)
      then pure []
      else (append_event (
            workflow_task_timed_out (record {
              scheduled_event_id = task.scheduled_event_id;
              started_event_id = task.started_event_id;
              kind = start_to_close;
            }))
          >>= λ _. wake_workflow))

-- `last.Attrs = attrs` on the last event, if it is a continuation.
abbrev pub patch_last : String → History → Option History
patch_last run_id [] = none
patch_last run_id (e ∷ f ∷ es) = elim (patch_last run_id (f ∷ es)) [
  | none ↦ none
  | some h ↦ some (e ∷ h)
]
patch_last run_id (e ∷ []) = elim e.attrs [
  | workflow_execution_continued_as_new a ↦ some (
      record e { attrs = workflow_execution_continued_as_new (record a { new_run_id = run_id }) }
      ∷ [])
  | _ ↦ none
]

unfoldable pub set_events : Option History → Exec (Unit {0})
set_events none = refuse not_continued_as_new
set_events (some h) = modify (λ s. record s { events = h })

-- PatchContinuedAsNewRunID
unfoldable pub patch_continued_as_new_run_id : String → Exec (Unit {0})
patch_continued_as_new_run_id run_id = do
  h ← gets (λ s. s.events)
  refuse_when (null h) no_events_to_patch
  set_events (patch_last run_id h)
