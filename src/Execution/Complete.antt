-- ===== src/Execution/Complete.antt =====
-- applyCommand and CompleteWorkflowTask of internal/execution/transitions.go.
use skald.Prelude.{
  ℕ, String, not, none, some, List, [], ◌∷◌, ◌++◌, nat_eq, string_eq, Outcome, ok, err, panic,
}
use skald.Prelude.GoMap
use skald.Prelude.GoMap.{GoMap}
use skald.Values.Float.{Floats}
use skald.Values.Retry.{default_retry_policy}
use skald.History.Attributes.{
  Attributes, ActivityTaskScheduled, workflow_execution_completed, workflow_execution_canceled,
  workflow_task_completed, activity_task_scheduled, activity_task_cancel_requested, timer_started,
  timer_canceled, marker_recorded,
}
use skald.History.Command
use skald.History.Command.{
  Command, CommandType, CommandError, ScheduleActivityCommand, ContinueAsNewCommand, validate_batch,
}
use skald.Execution.State.{
  MutableState, Exec, ExecError, bad_batch, task_started, no_task_in_flight, unhandled_command,
}
use skald.Execution.Append.{pure, refuse, deref, lift, gets, ◌>>=◌, ◌>>◌, refuse_when, append_event}
use skald.Execution.Commands.{precheck_commands, nothing_seen}
use skald.Execution.Closing.{continue_as_new, fail_execution, or_default}
use skald.Execution.Effect.{Effect, dispatch_activity_task, dispatch_effect, timer_effect}

module _ (F : Floats) where
  -- The attributes that a scheduled activity is written with.
  abbrev pub scheduled_attrs : ScheduleActivityCommand → MutableState → ℕ → ActivityTaskScheduled
  scheduled_attrs c s completed_id = record {
    activity_id = c.activity_id;
    activity_type = c.activity_type;
    task_queue = or_default c.task_queue s.task_queue;
    input = c.input;
    retry_policy = elim c.retry_policy [ none ↦ some (default_retry_policy F) | some p ↦ some p ];
    schedule_to_close_timeout = c.schedule_to_close_timeout;
    schedule_to_start_timeout = c.schedule_to_start_timeout;
    start_to_close_timeout = c.start_to_close_timeout;
    heartbeat_timeout = c.heartbeat_timeout;
    workflow_task_completed_event_id = completed_id;
  }

  unfoldable pub apply_schedule : ScheduleActivityCommand → ℕ → Exec (List Effect)
  apply_schedule c completed_id = do
    attrs ← gets (λ s. scheduled_attrs c s completed_id)
    ev ← append_event (activity_task_scheduled attrs)
    pure (dispatch_effect dispatch_activity_task attrs.task_queue ev.id ∷ [])

  -- `t := ms.timers[ev.ID]`, whose field FireAt is read.
  unfoldable pub apply_start_timer : Command.StartTimerCommand → ℕ → Exec (List Effect)
  apply_start_timer c completed_id = do
    ev ← append_event (
        timer_started (record {
          timer_id = c.timer_id;
          start_to_fire_timeout = c.start_to_fire_timeout;
          workflow_task_completed_event_id = completed_id;
        }))
    t ← gets (λ s. GoMap.get s.timers ev.id)
    u ← deref t
    pure (timer_effect "" ev.id u.fire_at ∷ [])

  -- `t := ms.timers[id]`, whose field TimerID is read with no test.
  unfoldable pub apply_cancel_timer : ℕ → ℕ → Exec (List Effect)
  apply_cancel_timer id completed_id = do
    t ← gets (λ s. GoMap.get s.timers id)
    u ← deref t
    _ ← append_event (
        timer_canceled (record {
          timer_id = u.timer_id;
          started_event_id = id;
          workflow_task_completed_event_id = completed_id;
        }))
    pure []

  unfoldable pub write : Attributes → Exec (List Effect)
  write attrs = append_event attrs >>= λ _. pure []

  -- applyCommand, by the command's type.
  unfoldable pub apply_command : CommandType → Command → ℕ → Exec (List Effect)
  apply_command CommandType.schedule_activity_task c id = do
    a ← deref c.schedule_activity
    apply_schedule a id
  apply_command CommandType.request_cancel_activity_task c id = do
    a ← deref c.request_cancel_activity
    write (
        activity_task_cancel_requested (record {
          scheduled_event_id = a.scheduled_event_id;
          workflow_task_completed_event_id = id;
        }))
  apply_command CommandType.start_timer c id = do
    a ← deref c.start_timer_cmd
    apply_start_timer a id
  apply_command CommandType.cancel_timer c id = do
    a ← deref c.cancel_timer_cmd
    apply_cancel_timer a.started_event_id id
  apply_command CommandType.record_marker c id = do
    a ← deref c.record_marker_cmd
    write (
        marker_recorded (record {
          marker_name = a.marker_name;
          marker_id = a.marker_id;
          details = a.details;
          failure = a.failure;
          workflow_task_completed_event_id = id;
        }))
  apply_command CommandType.complete_workflow_execution c id = do
    a ← deref c.complete_workflow
    write (
        workflow_execution_completed
          (record { result = a.result; workflow_task_completed_event_id = id }))
  apply_command CommandType.fail_workflow_execution c id = do
    a ← deref c.fail_workflow
    fail_execution F a.failure id
  apply_command CommandType.cancel_workflow_execution c id = do
    a ← deref c.cancel_workflow
    write (
        workflow_execution_canceled
          (record { details = a.details; workflow_task_completed_event_id = id }))
  apply_command CommandType.continue_as_new_workflow c id = do
    a ← deref c.continue_as_new
    continue_as_new a id
  apply_command CommandType.unspecified c id = refuse unhandled_command

  -- The loop of CompleteWorkflowTask.
  unfoldable pub apply_commands : List Command → ℕ → Exec (List Effect)
  apply_commands [] id = pure []
  apply_commands (c ∷ cs) id = apply_command c.command_type c id >>= λ eff.
      apply_commands cs id >>= λ effs. pure (eff ++ effs)

  unfoldable pub checked_batch : List Command → Outcome ExecError (List Command)
  checked_batch cmds = elim (validate_batch F cmds) [
    | ok cs ↦ ok cs
    | err e ↦ err (bad_batch e)
    | panic ↦ panic
  ]

  -- CompleteWorkflowTask. Its last `if` returns the same on both branches.
  unfoldable pub complete_workflow_task :
      String → String → String → List Command → Exec (List Effect)
  complete_workflow_task identity sdk_name sdk_version cmds = do
    s ← gets (λ s. s)
    refuse_when (not (task_started s.workflow_task)) no_task_in_flight
    cs ← lift (checked_batch cmds)
    lift (precheck_commands s nothing_seen cs)
    completed ← append_event (
        workflow_task_completed (record {
          scheduled_event_id = s.workflow_task.scheduled_event_id;
          started_event_id = s.workflow_task.started_event_id;
          identity = identity;
          sdk_name = sdk_name;
          sdk_version = sdk_version;
        }))
    apply_commands cs completed.id
