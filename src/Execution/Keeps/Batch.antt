-- ===== src/Execution/Keeps/Batch.antt =====
-- The same for the batch of a workflow task: its closing commands, each command, the whole.
use skald.Prelude.{ℕ, true, String, Option, none, some, List, [], ◌∷◌}
use skald.Values.Errors.{ApplicationError}
use skald.Values.Float.{Floats}
use skald.Values.Retry.{RetryPolicy}
use skald.History.Attributes.{Attributes}
use skald.History.Event.{Duration}
use skald.History.Command
use skald.History.Command.{Command, CommandType, ContinueAsNewCommand, ScheduleActivityCommand}
use skald.Execution.State.{MutableState}
use skald.Execution.Append.{read_now, append_event}
use skald.Execution.Closing.{
  continue_as_new, retry_in_budget, retry_decision, decide_retry, fail_execution,
}
use skald.Execution.Complete.{
  apply_schedule, apply_start_timer, apply_cancel_timer, write, apply_command, apply_commands,
  complete_workflow_task,
}
use skald.Execution.Keeps.{Keeps, keeps_rules, Keeps-bind, Keeps-gets, Keeps-if, Keeps-pure}

module _ (P : MutableState → Type 0) (append : (attrs : Attributes) → Keeps P (append_event attrs))
    (clock : Keeps P read_now) where
  continue_as_new-Keeps : (c : ContinueAsNewCommand) (id : ℕ) → Keeps P (continue_as_new c id)
  unfolding continue_as_new
  continue_as_new-Keeps c id = search (keeps_rules, append) depth 9

  module _ (F : Floats) where
    retry_in_budget-Keeps : (delay : Duration) → Keeps P (retry_in_budget F delay)
    unfolding retry_in_budget
    retry_in_budget-Keeps delay =
        Keeps-bind _ _ (Keeps-gets _)
          λ s. Keeps-if _ _ _ (Keeps-pure true) (Keeps-bind _ _ clock λ now. Keeps-pure _)

    retry_decision-Keeps :
        (p : RetryPolicy) (delay : Option Duration) → Keeps P (retry_decision F p delay)
    unfolding retry_decision
    retry_decision-Keeps p none = search keeps_rules depth 9
    retry_decision-Keeps p (some delay) = search (keeps_rules, retry_in_budget-Keeps) depth 9

    decide_retry-Keeps :
        (failure : Option ApplicationError) (p : Option RetryPolicy)
        → Keeps P (decide_retry F failure p)
    unfolding decide_retry
    decide_retry-Keeps failure none = search keeps_rules
    decide_retry-Keeps failure (some p) = search (keeps_rules, retry_decision-Keeps) depth 9

    fail_execution-Keeps :
        (failure : Option ApplicationError) (id : ℕ) → Keeps P (fail_execution F failure id)
    unfolding fail_execution
    fail_execution-Keeps failure id = search (keeps_rules, append, decide_retry-Keeps) depth 9

    apply_schedule-Keeps : (c : ScheduleActivityCommand) (id : ℕ) → Keeps P (apply_schedule F c id)
    unfolding apply_schedule
    apply_schedule-Keeps c id = search (keeps_rules, append) depth 9

    apply_start_timer-Keeps :
        (c : Command.StartTimerCommand) (id : ℕ) → Keeps P (apply_start_timer F c id)
    unfolding apply_start_timer
    apply_start_timer-Keeps c id = search (keeps_rules, append) depth 9

    apply_cancel_timer-Keeps :
        (id completed_id : ℕ) → Keeps P (apply_cancel_timer F id completed_id)
    unfolding apply_cancel_timer
    apply_cancel_timer-Keeps id completed_id = search (keeps_rules, append) depth 9

    write-Keeps : (attrs : Attributes) → Keeps P (write F attrs)
    unfolding write
    write-Keeps attrs = search (keeps_rules, append)

    ruleset command_rules = (
      keeps_rules, continue_as_new-Keeps, fail_execution-Keeps, apply_schedule-Keeps,
      apply_start_timer-Keeps, apply_cancel_timer-Keeps, write-Keeps,
    )

    pub apply_command-Keeps :
        (t : CommandType) (c : Command) (id : ℕ) → Keeps P (apply_command F t c id)
    unfolding apply_command
    apply_command-Keeps CommandType.unspecified c id = search keeps_rules
    apply_command-Keeps CommandType.schedule_activity_task c id = search command_rules
    apply_command-Keeps _ c id = search command_rules

    pub apply_commands-Keeps : (cs : List Command) (id : ℕ) → Keeps P (apply_commands F cs id)
    unfolding apply_commands
    apply_commands-Keeps [] id = search keeps_rules
    apply_commands-Keeps (c ∷ cs) id =
        search (keeps_rules, apply_command-Keeps c.command_type c id, apply_commands-Keeps cs id)
          depth 9

    pub complete_workflow_task-Keeps :
        (identity sdk_name sdk_version : String) (cmds : List Command)
        → Keeps P (complete_workflow_task F identity sdk_name sdk_version cmds)
    unfolding complete_workflow_task
    complete_workflow_task-Keeps identity sdk_name sdk_version cmds =
        search (keeps_rules, append, apply_commands-Keeps) depth 9
