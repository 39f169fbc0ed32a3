-- ===== src/Execution/Consistent/Apply.antt =====
-- The events of `apply` of internal/execution/mutablestate.go and the well-formedness of states.
use skald.Prelude.{ℕ, suc, ◌≡◌, false, ok, nat_eq, string_eq, arith, subst}
use skald.Values.Status
use skald.Values.Status.{WorkflowStatus, is_terminal_status}
use skald.History.Attributes.{
  Attributes, no_attributes, workflow_execution_started, workflow_execution_completed,
  workflow_execution_failed, workflow_execution_timed_out, workflow_execution_canceled,
  workflow_execution_terminated, workflow_execution_continued_as_new,
  workflow_execution_cancel_requested, workflow_execution_signaled, workflow_task_scheduled,
  workflow_task_started, workflow_task_completed, workflow_task_failed, workflow_task_timed_out,
  activity_task_scheduled, activity_task_started, activity_task_completed, activity_task_failed,
  activity_task_timed_out, activity_task_cancel_requested, activity_task_canceled, timer_started,
  timer_fired, timer_canceled, marker_recorded,
}
use skald.History.Event.{Time}
use skald.Execution.State.{MutableState}
use skald.Execution.Apply.{apply}
use skald.Execution.Consistent.{IsBody}
use skald.Execution.Consistent.Parts.{
  IsBody-mono, close-IsBody, scheduled-IsBody, started-IsBody, request_activity_cancel-IsBody,
  close_activity-IsBody, timer_started-IsBody, close_timer-IsBody,
}

-- Every event that `apply` accepts in an open run keeps the state well-formed.
pub apply-IsBody :
    (n : ℕ) (s u : MutableState) (time : Time) (a : Attributes)
    → IsBody n s
    → is_terminal_status s.status ≡ false
    → apply s (suc n) time a ≡ ok u
    → IsBody (suc n) u
unfolding apply
apply-IsBody n s u time no_attributes b o h = cc
apply-IsBody n s u time (workflow_execution_started a) b o h =
    IsBody-mono n s u b (ground arith) (ground (arith, b.task))
apply-IsBody n s u time (workflow_execution_cancel_requested a) b o h =
    IsBody-mono n s u b (ground arith) (ground (arith, b.task))
apply-IsBody n s u time (workflow_execution_signaled a) b o h =
    IsBody-mono n s u b (ground arith) (ground (arith, b.task))
apply-IsBody n s u time (workflow_task_scheduled a) b o h =
    IsBody-mono n s u b (ground arith) (ground (arith, b.task))
apply-IsBody n s u time (workflow_task_started a) b o h =
    IsBody-mono n s u b (ground arith) (ground (arith, b.task))
apply-IsBody n s u time (workflow_task_completed a) b o h =
    IsBody-mono n s u b (ground arith) (ground (arith, b.task))
apply-IsBody n s u time (workflow_task_failed a) b o h =
    IsBody-mono n s u b (ground arith) (ground (arith, b.task))
apply-IsBody n s u time (workflow_task_timed_out a) b o h =
    IsBody-mono n s u b (ground arith) (ground (arith, b.task))
apply-IsBody n s u time (marker_recorded a) b o h =
    IsBody-mono n s u b (ground arith) (ground (arith, b.task))
apply-IsBody n s u time (workflow_execution_completed a) b o h =
    subst (IsBody (suc n)) (ground arith) (close-IsBody n s Status.completed time)
apply-IsBody n s u time (workflow_execution_failed a) b o h =
    subst (IsBody (suc n)) (ground arith) (close-IsBody n s Status.failed time)
apply-IsBody n s u time (workflow_execution_timed_out a) b o h =
    subst (IsBody (suc n)) (ground arith) (close-IsBody n s Status.timed_out time)
apply-IsBody n s u time (workflow_execution_canceled a) b o h =
    subst (IsBody (suc n)) (ground arith) (close-IsBody n s Status.canceled time)
apply-IsBody n s u time (workflow_execution_terminated a) b o h =
    subst (IsBody (suc n)) (ground arith) (close-IsBody n s Status.terminated time)
apply-IsBody n s u time (workflow_execution_continued_as_new a) b o h =
    subst (IsBody (suc n)) (ground arith) (close-IsBody n s Status.continued_as_new time)
apply-IsBody n s u time (activity_task_scheduled a) b o h = scheduled-IsBody n s b o time a u h
apply-IsBody n s u time (activity_task_started a) b o h = started-IsBody n s b o time a u h
apply-IsBody n s u time (activity_task_completed a) b o h =
    close_activity-IsBody n s b o a.scheduled_event_id u h
apply-IsBody n s u time (activity_task_failed a) b o h =
    close_activity-IsBody n s b o a.scheduled_event_id u h
apply-IsBody n s u time (activity_task_timed_out a) b o h =
    close_activity-IsBody n s b o a.scheduled_event_id u h
apply-IsBody n s u time (activity_task_canceled a) b o h =
    close_activity-IsBody n s b o a.scheduled_event_id u h
apply-IsBody n s u time (activity_task_cancel_requested a) b o h =
    request_activity_cancel-IsBody n s b o a.scheduled_event_id u h
apply-IsBody n s u time (timer_started a) b o h = timer_started-IsBody n s b o time a u h
apply-IsBody n s u time (timer_fired a) b o h = close_timer-IsBody n s b o a.started_event_id u h
apply-IsBody n s u time (timer_canceled a) b o h = close_timer-IsBody n s b o a.started_event_id u h
