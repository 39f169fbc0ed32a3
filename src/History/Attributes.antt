-- ===== src/History/Attributes.antt =====
-- pkg/history/attributes.go: one record for each struct, and the interface Attributes as their
-- union. `no_attributes` is the nil interface value. Event ids are numbers from 0: the code treats a
-- negative id as it treats an absent one.
use skald.Prelude.{ℕ, String, Option}
use skald.Prelude.Int.{ℤ}
use skald.Prelude.GoMap.{GoMap}
use skald.Values.Payload.{Payload}
use skald.Values.Status.{RetryState, WorkflowTaskFailedCause}
use skald.Values.Errors.{ApplicationError, TimeoutKind}
use skald.Values.Float.{Float64}
use skald.Values.Retry.{RetryPolicy}
use skald.History.EventType.{EventType}

pub record WorkflowExecutionStarted : Type 0 where
  pub workflow_type : String
  pub task_queue : String
  pub input : Option Payload
  pub run_timeout : ℤ
  pub execution_timeout : ℤ
  pub task_timeout : ℤ
  pub retry_policy : Option RetryPolicy
  pub attempt : ℤ
  pub continued_execution_run_id : String
  pub first_execution_run_id : String
  pub randomness_seed : ℤ
  pub memo : GoMap String String
  pub search_attrs : GoMap String String
  pub identity : String
  pub cron_schedule : String

pub record WorkflowExecutionCompleted : Type 0 where
  pub result : Option Payload
  pub workflow_task_completed_event_id : ℕ

pub record WorkflowExecutionFailed : Type 0 where
  pub failure : Option ApplicationError
  pub workflow_task_completed_event_id : ℕ
  pub retry_state : RetryState

pub record WorkflowExecutionTimedOut : Type 0 where
  pub kind : TimeoutKind
  pub retry_state : RetryState

pub record WorkflowExecutionCanceled : Type 0 where
  pub details : Option Payload
  pub workflow_task_completed_event_id : ℕ

pub record WorkflowExecutionTerminated : Type 0 where
  pub reason : String
  pub details : Option Payload
  pub identity : String

pub record WorkflowExecutionContinuedAsNew : Type 0 where
  pub new_run_id : String
  pub workflow_type : String
  pub task_queue : String
  pub input : Option Payload
  pub run_timeout : ℤ
  pub task_timeout : ℤ
  pub retry_policy : Option RetryPolicy
  pub workflow_task_completed_event_id : ℕ

pub record WorkflowExecutionCancelRequested : Type 0 where
  pub reason : String
  pub identity : String

pub record WorkflowExecutionSignaled : Type 0 where
  pub signal_name : String
  pub input : Option Payload
  pub identity : String

pub record WorkflowTaskScheduled : Type 0 where
  pub task_queue : String
  pub start_to_close_timeout : ℤ
  pub attempt : ℤ

pub record WorkflowTaskStarted : Type 0 where
  pub scheduled_event_id : ℕ
  pub identity : String
  pub request_id : String

pub record WorkflowTaskCompleted : Type 0 where
  pub scheduled_event_id : ℕ
  pub started_event_id : ℕ
  pub identity : String
  pub sdk_name : String
  pub sdk_version : String

pub record WorkflowTaskFailed : Type 0 where
  pub scheduled_event_id : ℕ
  pub started_event_id : ℕ
  pub cause : WorkflowTaskFailedCause
  pub failure : Option ApplicationError
  pub identity : String

pub record WorkflowTaskTimedOut : Type 0 where
  pub scheduled_event_id : ℕ
  pub started_event_id : ℕ
  pub kind : TimeoutKind

pub record ActivityTaskScheduled : Type 0 where
  pub activity_id : String
  pub activity_type : String
  pub task_queue : String
  pub input : Option Payload
  pub retry_policy : Option RetryPolicy
  pub schedule_to_close_timeout : ℤ
  pub schedule_to_start_timeout : ℤ
  pub start_to_close_timeout : ℤ
  pub heartbeat_timeout : ℤ
  pub workflow_task_completed_event_id : ℕ

pub record ActivityTaskStarted : Type 0 where
  pub scheduled_event_id : ℕ
  pub identity : String
  pub request_id : String
  pub attempt : ℤ
  pub last_failure : Option ApplicationError
  pub retry_jitter_seed : Float64

pub record ActivityTaskCompleted : Type 0 where
  pub scheduled_event_id : ℕ
  pub started_event_id : ℕ
  pub result : Option Payload
  pub identity : String

pub record ActivityTaskFailed : Type 0 where
  pub scheduled_event_id : ℕ
  pub started_event_id : ℕ
  pub failure : Option ApplicationError
  pub retry_state : RetryState
  pub identity : String

pub record ActivityTaskTimedOut : Type 0 where
  pub scheduled_event_id : ℕ
  pub started_event_id : ℕ
  pub kind : TimeoutKind
  pub retry_state : RetryState
  pub last_heartbeat_details : Option Payload

pub record ActivityTaskCancelRequested : Type 0 where
  pub scheduled_event_id : ℕ
  pub workflow_task_completed_event_id : ℕ

pub record ActivityTaskCanceled : Type 0 where
  pub scheduled_event_id : ℕ
  pub started_event_id : ℕ
  pub details : Option Payload
  pub identity : String

pub record TimerStarted : Type 0 where
  pub timer_id : String
  pub start_to_fire_timeout : ℤ
  pub workflow_task_completed_event_id : ℕ

pub record TimerFired : Type 0 where
  pub timer_id : String
  pub started_event_id : ℕ

pub record TimerCanceled : Type 0 where
  pub timer_id : String
  pub started_event_id : ℕ
  pub workflow_task_completed_event_id : ℕ

pub record MarkerRecorded : Type 0 where
  pub marker_name : String
  pub marker_id : String
  pub details : Option Payload
  pub failure : Option ApplicationError
  pub workflow_task_completed_event_id : ℕ

pub data Attributes : Type 0 where
  no_attributes : Attributes
  workflow_execution_started : WorkflowExecutionStarted → Attributes
  workflow_execution_completed : WorkflowExecutionCompleted → Attributes
  workflow_execution_failed : WorkflowExecutionFailed → Attributes
  workflow_execution_timed_out : WorkflowExecutionTimedOut → Attributes
  workflow_execution_canceled : WorkflowExecutionCanceled → Attributes
  workflow_execution_terminated : WorkflowExecutionTerminated → Attributes
  workflow_execution_continued_as_new : WorkflowExecutionContinuedAsNew → Attributes
  workflow_execution_cancel_requested : WorkflowExecutionCancelRequested → Attributes
  workflow_execution_signaled : WorkflowExecutionSignaled → Attributes
  workflow_task_scheduled : WorkflowTaskScheduled → Attributes
  workflow_task_started : WorkflowTaskStarted → Attributes
  workflow_task_completed : WorkflowTaskCompleted → Attributes
  workflow_task_failed : WorkflowTaskFailed → Attributes
  workflow_task_timed_out : WorkflowTaskTimedOut → Attributes
  activity_task_scheduled : ActivityTaskScheduled → Attributes
  activity_task_started : ActivityTaskStarted → Attributes
  activity_task_completed : ActivityTaskCompleted → Attributes
  activity_task_failed : ActivityTaskFailed → Attributes
  activity_task_timed_out : ActivityTaskTimedOut → Attributes
  activity_task_cancel_requested : ActivityTaskCancelRequested → Attributes
  activity_task_canceled : ActivityTaskCanceled → Attributes
  timer_started : TimerStarted → Attributes
  timer_fired : TimerFired → Attributes
  timer_canceled : TimerCanceled → Attributes
  marker_recorded : MarkerRecorded → Attributes

-- The method Type, and Event.Type on nil attributes.
abbrev pub type_of : Attributes → EventType
type_of no_attributes = EventType.unspecified
type_of (workflow_execution_started a) = EventType.workflow_execution_started
type_of (workflow_execution_completed a) = EventType.workflow_execution_completed
type_of (workflow_execution_failed a) = EventType.workflow_execution_failed
type_of (workflow_execution_timed_out a) = EventType.workflow_execution_timed_out
type_of (workflow_execution_canceled a) = EventType.workflow_execution_canceled
type_of (workflow_execution_terminated a) = EventType.workflow_execution_terminated
type_of (workflow_execution_continued_as_new a) = EventType.workflow_execution_continued_as_new
type_of (workflow_execution_cancel_requested a) = EventType.workflow_execution_cancel_requested
type_of (workflow_execution_signaled a) = EventType.workflow_execution_signaled
type_of (workflow_task_scheduled a) = EventType.workflow_task_scheduled
type_of (workflow_task_started a) = EventType.workflow_task_started
type_of (workflow_task_completed a) = EventType.workflow_task_completed
type_of (workflow_task_failed a) = EventType.workflow_task_failed
type_of (workflow_task_timed_out a) = EventType.workflow_task_timed_out
type_of (activity_task_scheduled a) = EventType.activity_task_scheduled
type_of (activity_task_started a) = EventType.activity_task_started
type_of (activity_task_completed a) = EventType.activity_task_completed
type_of (activity_task_failed a) = EventType.activity_task_failed
type_of (activity_task_timed_out a) = EventType.activity_task_timed_out
type_of (activity_task_cancel_requested a) = EventType.activity_task_cancel_requested
type_of (activity_task_canceled a) = EventType.activity_task_canceled
type_of (timer_started a) = EventType.timer_started
type_of (timer_fired a) = EventType.timer_fired
type_of (timer_canceled a) = EventType.timer_canceled
type_of (marker_recorded a) = EventType.marker_recorded
