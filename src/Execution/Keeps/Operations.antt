-- ===== src/Execution/Keeps/Operations.antt =====
-- What every append and every reading of the clock keep, every operation keeps that changes the
-- state in no other way: all but a heartbeat, a retry and the patch of a successor's run id.
use skald.Prelude.{ℕ, String, Option, none, some}
use skald.Values.Payload.{Payload}
use skald.Values.Status.{WorkflowTaskFailedCause}
use skald.Values.Errors.{ApplicationError, TimeoutKind}
use skald.Values.Float.{Floats}
use skald.History.Attributes.{Attributes, WorkflowExecutionStarted}
use skald.Execution.State.{MutableState, TimerState, ActivityState}
use skald.Execution.Append.{read_now, append_event}
use skald.Execution.Activity.{
  pending_activity, start_again, start_activity, complete_activity, cancel_activity,
}
use skald.Execution.Keeps.{Keeps, keeps_rules}
use skald.Execution.Transitions.{
  start, add_task, fire_found, schedule_workflow_task, wake_workflow, start_workflow_task,
  fire_timer, signal, request_cancel, terminate, timeout_execution, fail_workflow_task,
  timeout_workflow_task,
}

module _ (P : MutableState → Type 0) (append : (attrs : Attributes) → Keeps P (append_event attrs))
    (clock : Keeps P read_now) where
  pub schedule_workflow_task-Keeps : Keeps P schedule_workflow_task
  unfolding schedule_workflow_task add_task
  schedule_workflow_task-Keeps = search (keeps_rules, append) depth 9

  pub wake_workflow-Keeps : Keeps P wake_workflow
  unfolding wake_workflow
  wake_workflow-Keeps = search (keeps_rules, schedule_workflow_task-Keeps) depth 9

  pub start-Keeps : (attrs : WorkflowExecutionStarted) → Keeps P (start attrs)
  unfolding start
  start-Keeps attrs = search (keeps_rules, append) depth 9

  pub start_workflow_task-Keeps :
      (identity request_id : String) → Keeps P (start_workflow_task identity request_id)
  unfolding start_workflow_task
  start_workflow_task-Keeps identity request_id = search (keeps_rules, append) depth 9

  fire_found-Keeps : (id : ℕ) (t : Option TimerState) → Keeps P (fire_found id t)
  unfolding fire_found
  fire_found-Keeps id none = search keeps_rules
  fire_found-Keeps id (some t) = search (keeps_rules, append, wake_workflow-Keeps)

  pub fire_timer-Keeps : (id : ℕ) → Keeps P (fire_timer id)
  unfolding fire_timer
  fire_timer-Keeps id = search (keeps_rules, fire_found-Keeps)

  pub signal-Keeps :
      (name : String) (input : Option Payload) (identity : String)
      → Keeps P (signal name input identity)
  unfolding signal
  signal-Keeps name input identity = search (keeps_rules, append, wake_workflow-Keeps)

  pub request_cancel-Keeps : (reason identity : String) → Keeps P (request_cancel reason identity)
  unfolding request_cancel
  request_cancel-Keeps reason identity = search (keeps_rules, append, wake_workflow-Keeps) depth 9

  pub terminate-Keeps :
      (reason : String) (details : Option Payload) (identity : String)
      → Keeps P (terminate reason details identity)
  unfolding terminate
  terminate-Keeps reason details identity = search (keeps_rules, append)

  pub timeout_execution-Keeps : (kind : TimeoutKind) → Keeps P (timeout_execution kind)
  unfolding timeout_execution
  timeout_execution-Keeps kind = search (keeps_rules, append)

  pub fail_workflow_task-Keeps :
      (cause : WorkflowTaskFailedCause) (failure : Option ApplicationError) (identity : String)
      → Keeps P (fail_workflow_task cause failure identity)
  unfolding fail_workflow_task
  fail_workflow_task-Keeps cause failure identity =
      search (keeps_rules, append, wake_workflow-Keeps) depth 9

  pub timeout_workflow_task-Keeps : Keeps P timeout_workflow_task
  unfolding timeout_workflow_task
  timeout_workflow_task-Keeps = search (keeps_rules, append, wake_workflow-Keeps) depth 9

  pub pending_activity-Keeps : (id : ℕ) → Keeps P (pending_activity id)
  unfolding pending_activity
  pending_activity-Keeps id = search keeps_rules

  pub complete_activity-Keeps :
      (id : ℕ) (result : Option Payload) (identity : String)
      → Keeps P (complete_activity id result identity)
  unfolding complete_activity
  complete_activity-Keeps id result identity =
      search (keeps_rules, append, pending_activity-Keeps, wake_workflow-Keeps) depth 9

  pub cancel_activity-Keeps :
      (id : ℕ) (details : Option Payload) (identity : String)
      → Keeps P (cancel_activity id details identity)
  unfolding cancel_activity
  cancel_activity-Keeps id details identity =
      search (keeps_rules, append, pending_activity-Keeps, wake_workflow-Keeps) depth 9

  module _ (F : Floats) where
    start_again-Keeps :
        (act : ActivityState) (request_id : String) → Keeps P (start_again F act request_id)
    unfolding start_again
    start_again-Keeps act request_id = search keeps_rules depth 9

    pub start_activity-Keeps :
        (id : ℕ) (identity request_id : String) → Keeps P (start_activity F id identity request_id)
    unfolding start_activity
    start_activity-Keeps id identity request_id =
        search (keeps_rules, append, pending_activity-Keeps, start_again-Keeps) depth 9
