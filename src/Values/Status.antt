-- ===== src/Values/Status.antt =====
-- pkg/skald/status.go and the enumerations of pkg/history/enums.go, with their text form.
use skald.Prelude.{String, Bool, true, false}

-- An integer that names no constant of the enumeration is not represented.
pub data WorkflowStatus : Type 0 where
  running completed failed canceled terminated timed_out continued_as_new : WorkflowStatus

unfoldable pub status_name : WorkflowStatus → String
status_name running = "RUNNING"
status_name completed = "COMPLETED"
status_name failed = "FAILED"
status_name canceled = "CANCELED"
status_name terminated = "TERMINATED"
status_name timed_out = "TIMED_OUT"
status_name continued_as_new = "CONTINUED_AS_NEW"

-- WorkflowStatus.Terminal
abbrev pub is_terminal_status : WorkflowStatus → Bool
is_terminal_status running = false
is_terminal_status _ = true

pub data RetryState : Type 0 where
  unspecified in_progress non_retryable_failure timeout maximum_attempts_reached : RetryState
  retry_policy_not_set canceled : RetryState

pub data WorkflowTaskFailedCause : Type 0 where
  unspecified non_determinism workflow_panic unhandled_command : WorkflowTaskFailedCause
  unregistered_type bad_command_attributes resource_exhausted : WorkflowTaskFailedCause

-- WorkflowTaskFailedCause.Permanent
unfoldable pub is_permanent : WorkflowTaskFailedCause → Bool
is_permanent non_determinism = true
is_permanent bad_command_attributes = true
is_permanent resource_exhausted = true
is_permanent _ = false
