-- ===== src/Execution/Task.antt =====
-- The one outstanding workflow task of a run.
use skald.Prelude.{
  ◌≡◌, ◌≢◌, false, none, some, [], ◌∷◌, ◌++◌, ok, arith, ◌==◌, nat_eq, ◌⊎◌, inl, inr, Bool-cases,
}
use skald.Values.Status.{is_terminal_status}
use skald.History.Event.{next_event_id}
use skald.Execution.State.{MutableState}
use skald.Execution.Apply.{apply}
use skald.Execution.Append.{append_event, stamped, ◌>>=◌}
use skald.Execution.Effect.{dispatch_effect, dispatch_workflow_task}
use skald.Execution.Transitions.{
  task_scheduled_attrs, add_task, schedule_workflow_task, wake_workflow,
}

-- ScheduleWorkflowTask on an open run. If a task is outstanding it changes nothing and returns no
-- effect. If none is, it appends one WorkflowTaskScheduled event, whose id is then the outstanding
-- task's and the effect's, and no worker holds the task.
pub schedule_workflow_task_cases :
    (s : MutableState)
    → is_terminal_status s.status ≡ false
    → let (r, t) = schedule_workflow_task s in
      ((s.workflow_task.scheduled_event_id ≢ 0) × (r ≡ ok none) × (t ≡ s))
      ⊎ ((s.workflow_task.scheduled_event_id ≡ 0)
          × (r
              ≡ ok (
                  some
                    (dispatch_effect dispatch_workflow_task s.task_queue (next_event_id s.events))))
          × (t.events ≡ s.events ++ stamped (task_scheduled_attrs s) s ∷ [])
          × (t.workflow_task.scheduled_event_id ≡ next_event_id s.events)
          × (t.workflow_task.started_event_id ≡ 0))
unfolding schedule_workflow_task add_task append_event apply ◌>>=◌
schedule_workflow_task_cases s h = elim (Bool-cases (s.workflow_task.scheduled_event_id == 0)) [
  | inl e ↦ inr (ground arith, ground arith, ground arith, ground arith, ground arith)
  | inr e ↦ inl (ground arith, ground arith, ground arith)
]

-- A second wake-up in a row is absorbed: it schedules no second task.
pub wake_workflow_twice :
    (s : MutableState) → wake_workflow (wake_workflow s).1 ≡ (ok [], (wake_workflow s).1)
unfolding wake_workflow schedule_workflow_task add_task append_event apply next_event_id ◌>>=◌
wake_workflow_twice s = ground arith
