-- ===== src/Examples/Batches.antt =====
-- The theorems on the batch of a workflow task, at the runs of Data.
use skald.Prelude.{
  ℕ, nat_eq, ◌+◌, ◌≡◌, refl, Bool, true, false, ◌⊎◌, Option, none, some, List, [], ◌∷◌, ok, panic,
  Outcome, length,
}
use skald.Prelude.Int.{pos}
use skald.Prelude.GoMap
use skald.Values.Status.{is_terminal_status}
use skald.History.Event.{next_event_id}
use skald.History.Command.{validate_batch}
use skald.Execution.State.{MutableState, TimerState, new_mutable_state, task_started}
use skald.Execution.Apply.{apply}
use skald.Execution.Append.{append_event, ◌>>=◌}
use skald.Execution.Effect.{Effect}
use skald.Execution.Commands.{precheck_commands}
use skald.Execution.Transitions
use skald.Execution.Complete
use skald.Execution.Complete.{complete_workflow_task}
use skald.Execution.Operation.{Operation, perform_each, perform}
use skald.Execution.Batch.Atomic.{complete_workflow_task_atomic}
use skald.Execution.Batch.Twice.{twice, complete_workflow_task-twice}
use skald.Examples.Data.{
  whole_floats, fresh, started_attrs, in_task_state, activity_command, timer_command,
}

complete_workflow_task_atomic_example :
    let (r, t) =
      complete_workflow_task whole_floats "worker" "go" "1"
        (activity_command "charge" ∷ timer_command "remind" ∷ [])
        in_task_state in
    (t ≡ in_task_state) ⊎ ((effects : List Effect) × (r ≡ ok effects))
complete_workflow_task_atomic_example =
    complete_workflow_task_atomic whole_floats "worker" "go" "1"
      (activity_command "charge" ∷ timer_command "remind" ∷ []) in_task_state refl

-- A timer (event 5) is pending, and a signal has woken the workflow: its next task is started.
abbrev signaled : List Operation
signaled =
    Operation.start started_attrs
    ∷ Operation.schedule_workflow_task
    ∷ Operation.start_workflow_task "worker" "poll-1"
    ∷ Operation.complete_workflow_task "worker" "go" "1" (timer_command "remind" ∷ [])
    ∷ Operation.signal "changed" none "client"
    ∷ Operation.start_workflow_task "worker" "poll-2"
    ∷ []

abbrev signaled_state : MutableState
signaled_state = perform_each whole_floats signaled fresh

abbrev remind : TimerState
remind = record { started_event_id = 5; timer_id = "remind"; fire_at = pos 15 }

signaled_facts :
    (is_terminal_status signaled_state.status ≡ false)
    × (task_started signaled_state.workflow_task ≡ true)
    × (GoMap.get signaled_state.timers 5 ≡ some remind)
unfolding perform_each perform new_mutable_state append_event apply ◌>>=◌ next_event_id
    Transitions.start Transitions.schedule_workflow_task Transitions.add_task
    Transitions.start_workflow_task Transitions.signal Transitions.wake_workflow
    Complete.complete_workflow_task skald.Prelude.GoMap.get Complete.checked_batch validate_batch
    skald.History.Command.validate_command precheck_commands
    skald.Execution.Commands.precheck_by_type Complete.apply_commands Complete.apply_command
    Complete.apply_start_timer skald.Prelude.GoMap.put skald.Prelude.Int.◌+ℤ◌
signaled_facts = (refl, refl, refl)

complete_workflow_task-twice_example :
    let (r, t) = complete_workflow_task whole_floats "worker" "go" "1" (twice 5) signaled_state in
    (r ≡ panic) × (length t.events ≡ length signaled_state.events + 2)
complete_workflow_task-twice_example =
    complete_workflow_task-twice whole_floats "worker" "go" "1" signaled_state 5 remind
      signaled_facts.0 signaled_facts.1 (λ e. cc) signaled_facts.2
