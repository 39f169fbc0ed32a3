-- ===== src/Execution/State.antt =====
-- The types of internal/execution/mutablestate.go. The store of pointers to ActivityState is the
-- map `activities` itself: no other variable keeps such a pointer across calls.
use skald.Prelude.{ℕ, String, Bool, false, not, Option, none, [], ◌==◌, ◌&&◌, ◌||◌, nat_eq, Outcome}
use skald.Prelude.Int.{ℤ, pos}
use skald.Prelude.GoMap
use skald.Prelude.GoMap.{GoMap}
use skald.Values.Payload.{Payload, WorkflowExecution}
use skald.Values.Status.{WorkflowStatus, running}
use skald.Values.Errors.{ApplicationError}
use skald.Values.Retry.{RetryPolicy}
use skald.History.Attributes.{ActivityTaskScheduled}
use skald.History.Event.{History, Time, Duration}
use skald.History.Validate.{Invalid}
use skald.History.Command.{CommandError}

abbrev pub zero_time : Time
zero_time = pos 0

pub record ActivityState : Type 0 where
  pub scheduled_event_id : ℕ
  pub started_event_id : ℕ
  pub activity_id : String
  pub activity_type : String
  pub task_queue : String
  pub attempt : ℤ
  pub scheduled_at : Time
  pub started_at : Time
  pub attempt_deadline : Time
  pub schedule_to_close_deadline : Time
  pub heartbeat_deadline : Time
  pub heartbeat_timeout : Duration
  pub last_heartbeat_details : Option Payload
  pub retry_policy : Option RetryPolicy
  pub cancel_requested : Bool
  pub request_id : String
  pub last_failure : Option ApplicationError
  pub attributes : ActivityTaskScheduled

-- ActivityState.Started
abbrev pub is_started : ActivityState → Bool
is_started a = not (a.started_event_id == 0)

pub record TimerState : Type 0 where
  pub started_event_id : ℕ
  pub timer_id : String
  pub fire_at : Time

pub record WorkflowTaskState : Type 0 where
  pub scheduled_event_id : ℕ
  pub started_event_id : ℕ
  pub attempt : ℤ
  pub scheduled_at : Time
  pub started_at : Time
  pub deadline : Time
  pub request_id : String
  pub task_queue : String
  pub timeout : Duration

-- WorkflowTaskState{}
abbrev pub no_task : WorkflowTaskState
no_task = record {
  scheduled_event_id = 0;
  started_event_id = 0;
  attempt = pos 0;
  scheduled_at = zero_time;
  started_at = zero_time;
  deadline = zero_time;
  request_id = "";
  task_queue = "";
  timeout = pos 0;
}

-- WorkflowTaskState.Scheduled and Started
abbrev pub task_scheduled : WorkflowTaskState → Bool
task_scheduled t = not (t.scheduled_event_id == 0) && t.started_event_id == 0

abbrev pub task_started : WorkflowTaskState → Bool
task_started t = not (t.started_event_id == 0)

-- `now` is the injected clock: its k-th reading, and `reads` counts the readings made.
pub record MutableState : Type 0 where
  pub namespace : String
  pub execution : WorkflowExecution
  pub status : WorkflowStatus
  pub started_at : Time
  pub closed_at : Time
  pub workflow_type : String
  pub task_queue : String
  pub version : ℕ
  pub events : History
  pub run_deadline : Time
  pub execution_deadline : Time
  pub default_task_timeout : Duration
  pub activities : GoMap ℕ ActivityState
  pub activity_ids : GoMap String ℕ
  pub timers : GoMap ℕ TimerState
  pub timer_ids : GoMap String ℕ
  pub workflow_task : WorkflowTaskState
  pub signal_count : ℕ
  pub cancel_requested : Bool
  pub cancel_reason : String
  pub attempt : ℤ
  pub retry_policy : Option RetryPolicy
  pub randomness_seed : ℤ
  pub first_execution_run_id : String
  pub cron_schedule : String
  pub memo : GoMap String String
  pub search_attrs : GoMap String String
  pub now : ℕ → Time
  pub reads : ℕ

-- NewMutableState, the clock given.
unfoldable pub new_mutable_state : String → WorkflowExecution → (ℕ → Time) → MutableState
new_mutable_state namespace exec now = record {
  namespace = namespace;
  execution = exec;
  status = running;
  started_at = zero_time;
  closed_at = zero_time;
  workflow_type = "";
  task_queue = "";
  version = 0;
  events = [];
  run_deadline = zero_time;
  execution_deadline = zero_time;
  default_task_timeout = pos 0;
  activities = GoMap.empty;
  activity_ids = GoMap.empty;
  timers = GoMap.empty;
  timer_ids = GoMap.empty;
  workflow_task = no_task;
  signal_count = 0;
  cancel_requested = false;
  cancel_reason = "";
  attempt = pos 0;
  retry_policy = none;
  randomness_seed = pos 0;
  first_execution_run_id = "";
  cron_schedule = "";
  memo = GoMap.empty;
  search_attrs = GoMap.empty;
  now = now;
  reads = 0;
}

-- HasPendingWork
unfoldable pub has_pending_work : MutableState → Bool
has_pending_work s =
    not (GoMap.is_empty s.activities)
    || (not (GoMap.is_empty s.timers) || not (s.workflow_task.scheduled_event_id == 0))

-- One constructor for each message of transitionErr; the texts are left out.
pub data Transition : Type 0 where
  execution_closed already_started task_already_scheduled no_task_to_start : Transition
  no_task_to_complete no_task_to_fail no_task_in_flight activity_not_pending : Transition
  activity_already_started activity_never_started activity_id_pending : Transition
  activity_id_reused timer_already_pending timer_id_reused timer_not_pending : Transition
  no_transition_defined unhandled_command no_events_to_patch not_continued_as_new : Transition

pub data ExecError : Type 0 where
  illegal : Transition → ExecError
  invalid_history : Invalid → ExecError
  bad_batch : CommandError → ExecError

-- A method on *MutableState: what it returns, and the state that it leaves, on an error too.
abbrev pub Exec : Type 0 → Type 0
Exec A = MutableState → Outcome ExecError A × MutableState
