-- ===== src/Examples/Data.antt =====
-- Test data: floats cut to whole numbers, a clock that ticks once per reading, one run.
use skald.Prelude.{
  ℕ, suc, ◌+◌, ◌*◌, ◌/◌, ◌^◌, String, false, none, some, List, [], ◌∷◌, ltb, leb, ◌==◌, nat_eq,
  if◌then◌else◌,
}
use skald.Prelude.Int.{pos, pos_part}
use skald.Prelude.GoMap
use skald.Values.Payload.{WorkflowExecution}
use skald.Values.Errors.{ApplicationError, application_error, no_cause}
use skald.Values.Float.{Floats}
use skald.History.Attributes.{WorkflowExecutionStarted}
use skald.History.Event.{Time}
use skald.History.Command.{Command, CommandType}
use skald.Execution.State.{MutableState, new_mutable_state}
use skald.Execution.Operation.{Operation, perform_each}

abbrev pub whole_floats : Floats
whole_floats = record {
  of_int = pos_part;
  to_int = pos;
  add = λ a b. a + b;
  mul = λ a b. a * b;
  div = λ a b. a / b;
  pow = λ a b. a ^ b;
  min = λ a b. if leb a b then a else b;
  is_inf = λ a. false;
  eq = λ a b. a == b;
  lt = ltb;
  one_fifth = 0;
}

abbrev pub ticking : ℕ → Time
ticking k = pos (suc k)

abbrev pub run : WorkflowExecution
run = record { workflow_id = "order-7"; run_id = "run-1" }

abbrev pub fresh : MutableState
fresh = new_mutable_state "default" run ticking

abbrev pub started_attrs : WorkflowExecutionStarted
started_attrs = record {
  workflow_type = "Order";
  task_queue = "orders";
  input = none;
  run_timeout = pos 0;
  execution_timeout = pos 0;
  task_timeout = pos 0;
  retry_policy = none;
  attempt = pos 0;
  continued_execution_run_id = "";
  first_execution_run_id = "";
  randomness_seed = pos 7;
  memo = GoMap.empty;
  search_attrs = GoMap.empty;
  identity = "client";
  cron_schedule = "";
}

abbrev pub no_command : CommandType → Command
no_command t = record {
  command_type = t;
  schedule_activity = none;
  request_cancel_activity = none;
  start_timer_cmd = none;
  cancel_timer_cmd = none;
  complete_workflow = none;
  fail_workflow = none;
  cancel_workflow = none;
  continue_as_new = none;
  record_marker_cmd = none;
}

abbrev pub timer_command : String → Command
timer_command name = record (no_command CommandType.start_timer) {
  start_timer_cmd = some (record { timer_id = name; start_to_fire_timeout = pos 10 });
}

abbrev pub cancel_command : ℕ → Command
cancel_command id = record (no_command CommandType.cancel_timer) {
  cancel_timer_cmd = some (record { started_event_id = id });
}

abbrev pub activity_command : String → Command
activity_command name = record (no_command CommandType.schedule_activity_task) {
  schedule_activity = some (record {
    activity_id = name;
    activity_type = "Charge";
    task_queue = "";
    input = none;
    retry_policy = none;
    schedule_to_close_timeout = pos 0;
    schedule_to_start_timeout = pos 0;
    start_to_close_timeout = pos 30;
    heartbeat_timeout = pos 0;
  });
}

abbrev pub complete_command : Command
complete_command = record (no_command CommandType.complete_workflow_execution) {
  complete_workflow = some (record { result = none });
}

abbrev pub continue_command : Command
continue_command = record (no_command CommandType.continue_as_new_workflow) {
  continue_as_new = some (record {
    workflow_type = "";
    task_queue = "";
    input = none;
    run_timeout = pos 0;
    task_timeout = pos 0;
    retry_policy = none;
  });
}

abbrev pub declined : ApplicationError
declined = application_error "Declined" "card declined" false none no_cause ""

-- Started, with its first workflow task in a worker's hands.
abbrev pub in_task : List Operation
in_task =
    Operation.start started_attrs
    ∷ Operation.schedule_workflow_task
    ∷ Operation.start_workflow_task "worker" "poll-1"
    ∷ []

abbrev pub in_task_state : MutableState
in_task_state = perform_each whole_floats in_task fresh

-- Then a batch that leaves an activity (event 5) and a timer (event 6) pending.
abbrev pub with_pending : List Operation
with_pending =
    Operation.start started_attrs
    ∷ Operation.schedule_workflow_task
    ∷ Operation.start_workflow_task "worker" "poll-1"
    ∷ Operation.complete_workflow_task "worker" "go" "1"
        (activity_command "charge" ∷ timer_command "remind" ∷ [])
    ∷ []

abbrev pub pending_state : MutableState
pending_state = perform_each whole_floats with_pending fresh

-- Then the timer fires, and the task that this wakes completes the run.
abbrev pub to_the_end : List Operation
to_the_end =
    Operation.start started_attrs
    ∷ Operation.schedule_workflow_task
    ∷ Operation.start_workflow_task "worker" "poll-1"
    ∷ Operation.complete_workflow_task "worker" "go" "1"
        (activity_command "charge" ∷ timer_command "remind" ∷ [])
    ∷ Operation.fire_timer 6
    ∷ Operation.start_workflow_task "worker" "poll-2"
    ∷ Operation.complete_workflow_task "worker" "go" "1" (complete_command ∷ [])
    ∷ []

abbrev pub ended_state : MutableState
ended_state = perform_each whole_floats to_the_end fresh

-- A run that continues as new.
abbrev pub continued : List Operation
continued =
    Operation.start started_attrs
    ∷ Operation.schedule_workflow_task
    ∷ Operation.start_workflow_task "worker" "poll-1"
    ∷ Operation.complete_workflow_task "worker" "go" "1" (continue_command ∷ [])
    ∷ []

abbrev pub continued_state : MutableState
continued_state = perform_each whole_floats continued fresh
