-- ===== src/Examples/Runs.antt =====
-- The theorems on runs, at the runs of Data.
use skald.Prelude.{
  ℕ, zero, suc, ◌+◌, ◌≤◌, ◌≡◌, ◌≢◌, refl, Bool, true, false, ◌⊎◌, Option, none, some, List, [], ◌∷◌,
  ◌++◌, All, ok, err, Outcome, length, arith,
}
use skald.Prelude.Int.{pos}
use skald.Values.Status.{is_terminal_status}
use skald.Values.Ids.{validate_type_name}
use skald.History.Attributes.{workflow_execution_started}
use skald.History.Event.{Event, History, next_event_id}
use skald.History.Validate.{validate, validate_references, too_many_events, no_refs}
use skald.History.Command.{validate_batch}
use skald.Execution.State.{MutableState, new_mutable_state, invalid_history}
use skald.Execution.Apply.{apply}
use skald.Execution.Append.{append_event, ◌>>=◌, rebuild, stamped}
use skald.Execution.Commands.{precheck_commands}
use skald.Execution.Effect.{dispatch_effect, dispatch_workflow_task}
use skald.Execution.Transitions
use skald.Execution.Transitions.{
  task_scheduled_attrs, schedule_workflow_task, wake_workflow, terminate,
}
use skald.Execution.Complete
use skald.Execution.Operation
use skald.Execution.Operation.{perform_each, perform}
use skald.Execution.Replay.{with_clock}
use skald.Execution.Replay.Recovery.{rebuild-perform_each}
use skald.Execution.Consistent.{IsConsistent}
use skald.Execution.Consistent.Operations.{perform-IsConsistent, reachable-IsConsistent}
use skald.Execution.Closed.{perform_closed}
use skald.Execution.Task.{schedule_workflow_task_cases, wake_workflow_twice}
use skald.Execution.Limits.{rebuild-terminate_oversized}
use skald.Examples.Data.{
  whole_floats, ticking, run, fresh, with_pending, pending_state, to_the_end, ended_state,
  started_attrs,
}

-- What the runs of Data come to.
run_facts :
    (validate ended_state.events ≡ ok tt)
    × (is_terminal_status ended_state.status ≡ true)
    × (is_terminal_status pending_state.status ≡ false)
unfolding perform_each perform new_mutable_state append_event apply ◌>>=◌ next_event_id validate
    Transitions.start Transitions.schedule_workflow_task Transitions.add_task
    Transitions.start_workflow_task Transitions.fire_timer Transitions.fire_found
    Transitions.wake_workflow Complete.complete_workflow_task skald.Prelude.GoMap.get
    Complete.checked_batch validate_batch skald.History.Command.validate_command validate_type_name
    skald.Values.Retry.validate_policy skald.History.Command.check_schedule precheck_commands
    skald.Execution.Commands.precheck_by_type Complete.apply_commands Complete.apply_command
    Complete.apply_schedule Complete.apply_start_timer skald.Prelude.GoMap.put Complete.write
    skald.History.Validate.check_events skald.History.Validate.check_event
    skald.History.Validate.validate_references
run_facts = (refl, refl, refl)

rebuild-perform_each_example :
    rebuild ended_state.namespace ended_state.execution ended_state.events ticking
    ≡ ok (with_clock ticking ended_state)
rebuild-perform_each_example =
    rebuild-perform_each whole_floats "default" run ticking ticking to_the_end
      (refl, (refl, (refl, (refl, (refl, (refl, (refl, (tt)))))))) run_facts.0

reachable-IsConsistent_example : IsConsistent pending_state
reachable-IsConsistent_example =
    reachable-IsConsistent whole_floats "default" run ticking with_pending

pending-IsConsistent : IsConsistent pending_state
pending-IsConsistent = reachable-IsConsistent whole_floats "default" run ticking with_pending

perform-IsConsistent_example :
    IsConsistent (perform whole_floats (Operation.fire_timer 6) pending_state)
perform-IsConsistent_example =
    perform-IsConsistent whole_floats (Operation.fire_timer 6) pending_state pending-IsConsistent

perform_closed_example :
    let t = perform whole_floats (Operation.fire_timer 6) ended_state in
    t ≡ record ended_state { reads = t.reads }
perform_closed_example =
    perform_closed whole_floats (Operation.fire_timer 6) ended_state
      (reachable-IsConsistent whole_floats "default" run ticking to_the_end) run_facts.1

schedule_workflow_task_cases_example :
    let s = pending_state in
    let (r, t) = schedule_workflow_task s in
    ((s.workflow_task.scheduled_event_id ≢ 0) × (r ≡ ok none) × (t ≡ s))
    ⊎ ((s.workflow_task.scheduled_event_id ≡ 0)
        × (r
            ≡ ok (
                some
                  (dispatch_effect dispatch_workflow_task s.task_queue (next_event_id s.events))))
        × (t.events ≡ s.events ++ stamped (task_scheduled_attrs s) s ∷ [])
        × (t.workflow_task.scheduled_event_id ≡ next_event_id s.events)
        × (t.workflow_task.started_event_id ≡ 0))
schedule_workflow_task_cases_example = schedule_workflow_task_cases pending_state run_facts.2

wake_workflow_twice_example :
    wake_workflow (wake_workflow pending_state).1 ≡ (ok [], (wake_workflow pending_state).1)
wake_workflow_twice_example = wake_workflow_twice pending_state

abbrev filler : Event
filler = record { id = 1; time = pos 1; attrs = workflow_execution_started started_attrs }

abbrev copies : ℕ → Event → History
copies zero e = []
copies (suc n) e = e ∷ copies n e

length-copies : (n : ℕ) (e : Event) → length (copies n e) ≡ n
length-copies zero e = refl
length-copies (suc n) e = omega (arith, length-copies n e)

abbrev long_state : MutableState
long_state = record fresh { events = copies 50_000 filler }

rebuild-terminate_oversized_example :
    let (r, t) = terminate "operator" none "ops" long_state in
    (r ≡ ok tt)
    × (is_terminal_status t.status ≡ true)
    × (length t.events ≡ suc (length long_state.events))
    × (rebuild "default" run t.events ticking ≡ err (invalid_history too_many_events))
unfolding new_mutable_state
rebuild-terminate_oversized_example =
    rebuild-terminate_oversized long_state "operator" none "ops" "default" run ticking refl
      (omega (arith, length-copies 50_000 filler))
