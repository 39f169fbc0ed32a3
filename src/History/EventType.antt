-- ===== src/History/EventType.antt =====
-- pkg/history/eventtype.go. The constants are the type EventType, which the events of the model have:
-- their attributes fix it. The functions on texts take the code, an int32, which need not be that of
-- a constant.
pub mod Text
use skald.Prelude.{
  String, Bool, true, false, Option, none, some, List, [], ◌∷◌, ◌==◌, string_eq, if◌then◌else◌,
}
use Prim.Native.String.{◌++◌}
use skald.Prelude.Int.{ℤ, pos, int_eq}

pub data EventType : Type 0 where
  unspecified : EventType
  workflow_execution_started workflow_execution_completed workflow_execution_failed : EventType
  workflow_execution_timed_out workflow_execution_canceled : EventType
  workflow_execution_terminated workflow_execution_continued_as_new : EventType
  workflow_execution_cancel_requested workflow_execution_signaled : EventType
  workflow_task_scheduled workflow_task_started workflow_task_completed : EventType
  workflow_task_failed workflow_task_timed_out : EventType
  activity_task_scheduled activity_task_started activity_task_completed : EventType
  activity_task_failed activity_task_timed_out activity_task_cancel_requested : EventType
  activity_task_canceled : EventType
  timer_started timer_fired timer_canceled : EventType
  marker_recorded : EventType

-- The values of the constants.
abbrev pub number : EventType → ℤ
number unspecified = pos 0
number workflow_execution_started = pos 1
number workflow_execution_completed = pos 2
number workflow_execution_failed = pos 3
number workflow_execution_timed_out = pos 4
number workflow_execution_canceled = pos 5
number workflow_execution_terminated = pos 6
number workflow_execution_continued_as_new = pos 7
number workflow_execution_cancel_requested = pos 8
number workflow_execution_signaled = pos 9
number workflow_task_scheduled = pos 20
number workflow_task_started = pos 21
number workflow_task_completed = pos 22
number workflow_task_failed = pos 23
number workflow_task_timed_out = pos 24
number activity_task_scheduled = pos 40
number activity_task_started = pos 41
number activity_task_completed = pos 42
number activity_task_failed = pos 43
number activity_task_timed_out = pos 44
number activity_task_cancel_requested = pos 45
number activity_task_canceled = pos 46
number timer_started = pos 60
number timer_fired = pos 61
number timer_canceled = pos 62
number marker_recorded = pos 80

-- EventType.Known
abbrev pub is_known : EventType → Bool
is_known unspecified = false
is_known _ = true

-- EventType.Terminal
abbrev pub is_terminal : EventType → Bool
is_terminal workflow_execution_completed = true
is_terminal workflow_execution_failed = true
is_terminal workflow_execution_timed_out = true
is_terminal workflow_execution_canceled = true
is_terminal workflow_execution_terminated = true
is_terminal workflow_execution_continued_as_new = true
is_terminal _ = false

-- The map eventTypeNames, and eventTypesByName, which inverts it.
unfoldable pub event_type_names : List (EventType × String)
event_type_names =
    (unspecified, "Unspecified")
    ∷ (workflow_execution_started, "WorkflowExecutionStarted")
    ∷ (workflow_execution_completed, "WorkflowExecutionCompleted")
    ∷ (workflow_execution_failed, "WorkflowExecutionFailed")
    ∷ (workflow_execution_timed_out, "WorkflowExecutionTimedOut")
    ∷ (workflow_execution_canceled, "WorkflowExecutionCanceled")
    ∷ (workflow_execution_terminated, "WorkflowExecutionTerminated")
    ∷ (workflow_execution_continued_as_new, "WorkflowExecutionContinuedAsNew")
    ∷ (workflow_execution_cancel_requested, "WorkflowExecutionCancelRequested")
    ∷ (workflow_execution_signaled, "WorkflowExecutionSignaled")
    ∷ (workflow_task_scheduled, "WorkflowTaskScheduled")
    ∷ (workflow_task_started, "WorkflowTaskStarted")
    ∷ (workflow_task_completed, "WorkflowTaskCompleted")
    ∷ (workflow_task_failed, "WorkflowTaskFailed")
    ∷ (workflow_task_timed_out, "WorkflowTaskTimedOut")
    ∷ (activity_task_scheduled, "ActivityTaskScheduled")
    ∷ (activity_task_started, "ActivityTaskStarted")
    ∷ (activity_task_completed, "ActivityTaskCompleted")
    ∷ (activity_task_failed, "ActivityTaskFailed")
    ∷ (activity_task_timed_out, "ActivityTaskTimedOut")
    ∷ (activity_task_cancel_requested, "ActivityTaskCancelRequested")
    ∷ (activity_task_canceled, "ActivityTaskCanceled")
    ∷ (timer_started, "TimerStarted")
    ∷ (timer_fired, "TimerFired")
    ∷ (timer_canceled, "TimerCanceled")
    ∷ (marker_recorded, "MarkerRecorded")
    ∷ []

unfoldable pub name_in : List (EventType × String) → ℤ → Option String
name_in [] c = none
name_in ((u, n) ∷ rest) c = if number u == c then some n else name_in rest c

unfoldable pub type_in : List (EventType × String) → String → Option ℤ
type_in [] b = none
type_in ((u, n) ∷ rest) b = if n == b then some (number u) else type_in rest b

-- EventType.String and MarshalText; `decimal` is the verb %d of fmt.
unfoldable pub marshal_text : (ℤ → String) → ℤ → String
unfolding name_in event_type_names
marshal_text decimal c = elim (name_in event_type_names c) [
  | some n ↦ n
  | none ↦ "EventType(" ++ (decimal c ++ ")")
]

-- UnmarshalText; the result is the code, or none for its error.
unfoldable pub unmarshal_text : String → Option ℤ
unfolding type_in event_type_names
unmarshal_text b = type_in event_type_names b
