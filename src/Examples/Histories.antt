-- ===== src/Examples/Histories.antt =====
-- The theorems on valid histories and on what a history does not record, at the runs of Data.
use skald.Prelude.{
  ℕ, suc, nat_eq, ◌+◌, ◌≤◌, ◌≡◌, ◌≢◌, refl, Bool, true, false, Option, none, some, List, [], ◌∷◌,
  ok, Outcome, length, get_elem?,
}
use skald.Prelude.{false, err, ◌++◌}
use skald.Prelude.Int.{pos}
use skald.Prelude.GoMap
use skald.Values.Ids.{validate_type_name}
use skald.Values.Payload.{Payload}
use skald.History.Event.{Event, next_event_id, get_event}
use skald.History.Validate.{validate, max_history_events}
use skald.History.Command.{validate_batch}
use skald.History.Dense.{IsDense}
use skald.History.Valid.{AreOrdered, ClosesLast, validate_sound, get_event_valid}
use skald.Execution.State.{MutableState, ActivityState, new_mutable_state, is_started}
use skald.Execution.Apply.{apply}
use skald.Execution.Append.{append_event, ◌>>=◌, rebuild}
use skald.Execution.Commands.{precheck_commands}
use skald.Execution.Transitions
use skald.Execution.Activity
use skald.Execution.Activity.{record_activity_heartbeat}
use skald.Execution.Complete
use skald.Execution.Operation.{Operation, perform_each, perform}
use skald.Execution.Replay.{with_clock}
use skald.Execution.Replay.Recovery.{rebuild-perform_each}
use skald.Values.Status.{is_terminal_status}
use skald.Execution.State.{illegal, activity_already_started}
use skald.Execution.Activity.{start_activity}
use skald.Execution.Consistent.Operations.{reachable-IsConsistent}
use skald.Execution.Transitions.{patch_continued_as_new_run_id}
use skald.Execution.Replay.{IsSynced}
use skald.Execution.Replay.Recovery.{run_of-IsSynced}
use skald.Execution.Replay.Patch.{patch_continued_as_new_run_id-IsSynced}
use skald.Examples.Data.{continued, continued_state}
use skald.Execution.Closing.{pending_run_id_placeholder}
use skald.Execution.Placeholder.{continued_as, validate_placeholder}
use skald.History.Attributes.{WorkflowExecutionContinuedAsNew, no_attributes}
use skald.Execution.Polls.{start_activity_again}
use skald.Execution.Unrecorded.{rebuild-record_activity_heartbeat}
use skald.Examples.Data.{whole_floats, ticking, run, fresh, started_attrs, activity_command}

-- An activity (event 5) is scheduled, and its first attempt is in a worker's hands (event 6).
abbrev working : List Operation
working =
    Operation.start started_attrs
    ∷ Operation.schedule_workflow_task
    ∷ Operation.start_workflow_task "worker" "poll-1"
    ∷ Operation.complete_workflow_task "worker" "go" "1" (activity_command "charge" ∷ [])
    ∷ Operation.start_activity 5 "worker" "poll-2"
    ∷ []

abbrev working_state : MutableState
working_state = perform_each whole_floats working fresh

working_facts :
    (validate working_state.events ≡ ok tt)
    × (a : ActivityState) × (GoMap.get working_state.activities 5 ≡ some a)
    × (is_started a ≡ true)
    × (a.last_heartbeat_details ≡ none)
    × (e : Event) × (get_elem? working_state.events 3 ≡ some e)
unfolding perform_each perform new_mutable_state append_event apply ◌>>=◌ next_event_id validate
    Transitions.start Transitions.schedule_workflow_task Transitions.add_task
    Transitions.start_workflow_task Activity.start_activity Activity.pending_activity
    Complete.complete_workflow_task skald.Prelude.GoMap.get Complete.checked_batch validate_batch
    skald.History.Command.validate_command validate_type_name skald.Values.Retry.validate_policy
    skald.History.Command.check_schedule precheck_commands skald.Execution.Commands.precheck_by_type
    Complete.apply_commands Complete.apply_command Complete.apply_schedule skald.Prelude.GoMap.put
    skald.History.Validate.check_events skald.History.Validate.check_event
    skald.History.Validate.validate_references
working_facts = (refl, _, refl, refl, refl, _, refl)

validate_sound_example :
    (length working_state.events ≤ max_history_events)
    × IsDense 0 working_state.events
    × AreOrdered (pos 0) working_state.events
    × ClosesLast working_state.events
validate_sound_example = validate_sound working_state.events working_facts.0

get_event_valid_example :
    (working_facts.5.id ≡ 4) × (get_event working_state.events 4 ≡ some working_facts.5)
get_event_valid_example =
    get_event_valid working_state.events 3 working_facts.5 working_facts.0 working_facts.6

abbrev progress : Payload
progress = record { encoding = "json/plain"; metadata = GoMap.empty; bytes = 53 ∷ [] }

rebuild-record_activity_heartbeat_example :
    let (r, t) = record_activity_heartbeat 5 (some progress) working_state in
    (r ≡ ok working_facts.1.cancel_requested)
    × (t.events ≡ working_state.events)
    × (rebuild t.namespace t.execution t.events ticking ≢ ok (with_clock ticking t))
rebuild-record_activity_heartbeat_example =
    rebuild-record_activity_heartbeat working_state 5 working_facts.1 (some progress) ticking
      working_facts.2 working_facts.3 (λ e. cc working_facts.4)
      (rebuild-perform_each whole_floats "default" run ticking ticking working
        (refl, (refl, (refl, (refl, (refl, tt))))) working_facts.0)

-- The same run before the attempt is started.
abbrev scheduled : List Operation
scheduled =
    Operation.start started_attrs
    ∷ Operation.schedule_workflow_task
    ∷ Operation.start_workflow_task "worker" "poll-1"
    ∷ Operation.complete_workflow_task "worker" "go" "1" (activity_command "charge" ∷ [])
    ∷ []

abbrev scheduled_state : MutableState
scheduled_state = perform_each whole_floats scheduled fresh

scheduled_facts :
    (is_terminal_status scheduled_state.status ≡ false)
    × (a : ActivityState) × (GoMap.get scheduled_state.activities 5 ≡ some a)
    × (is_started a ≡ false)
unfolding perform_each perform new_mutable_state append_event apply ◌>>=◌ next_event_id
    Transitions.start Transitions.schedule_workflow_task Transitions.add_task
    Transitions.start_workflow_task Complete.complete_workflow_task skald.Prelude.GoMap.get
    Complete.checked_batch validate_batch skald.History.Command.validate_command validate_type_name
    skald.Values.Retry.validate_policy skald.History.Command.check_schedule precheck_commands
    skald.Execution.Commands.precheck_by_type Complete.apply_commands Complete.apply_command
    Complete.apply_schedule skald.Prelude.GoMap.put
scheduled_facts = (refl, _, refl, refl)

start_activity_again_example :
    let (r, t) = start_activity whole_floats 5 "worker" "poll-2" scheduled_state in
    (e : Event) × (r ≡ ok e)
    × (t.events ≡ scheduled_state.events ++ e ∷ [])
    × (start_activity whole_floats 5 "worker" "poll-2" t ≡ (ok e, t))
    × (start_activity whole_floats 5 "worker" "poll" t
        ≡ (err (illegal activity_already_started), t))
start_activity_again_example =
    start_activity_again whole_floats scheduled_state 5 scheduled_facts.1 "worker" "poll-2" "poll"
      (reachable-IsConsistent whole_floats "default" run ticking scheduled) scheduled_facts.0
      scheduled_facts.2 scheduled_facts.3 (λ e. cc)

patch_continued_as_new_run_id-IsSynced_example :
    IsSynced (patch_continued_as_new_run_id "run-2" continued_state).1
patch_continued_as_new_run_id-IsSynced_example =
    patch_continued_as_new_run_id-IsSynced continued_state "run-2" (
      run_of-IsSynced whole_floats "default" run ticking continued
        (refl, (refl, (refl, (refl, tt)))))

abbrev continuation : WorkflowExecutionContinuedAsNew
continuation = record {
  new_run_id = "";
  workflow_type = "Order";
  task_queue = "orders";
  input = none;
  run_timeout = pos 0;
  task_timeout = pos 0;
  retry_policy = none;
  workflow_task_completed_event_id = 4;
}

-- A workflow task that ended without a command.
abbrev answered : List Operation
answered =
    Operation.start started_attrs
    ∷ Operation.schedule_workflow_task
    ∷ Operation.start_workflow_task "worker" "poll-1"
    ∷ Operation.complete_workflow_task "worker" "go" "1" []
    ∷ []

abbrev answered_state : MutableState
answered_state = perform_each whole_floats answered fresh

abbrev last_event : Event
last_event = record { id = 5; time = pos 1_000; attrs = no_attributes }

validate_placeholder_example :
    validate (
      answered_state.events ++ continued_as pending_run_id_placeholder last_event continuation ∷ [])
    ≡ validate (answered_state.events ++ continued_as "run-2" last_event continuation ∷ [])
validate_placeholder_example =
    validate_placeholder answered_state.events last_event continuation "run-2" (λ e. cc)

-- Validate accepts the history.
placeholder_accepted :
    validate (
      answered_state.events ++ continued_as pending_run_id_placeholder last_event continuation ∷ [])
    ≡ ok tt
unfolding perform_each perform new_mutable_state append_event apply ◌>>=◌ next_event_id validate
    Transitions.start Transitions.schedule_workflow_task Transitions.add_task
    Transitions.start_workflow_task Complete.complete_workflow_task skald.Prelude.GoMap.get
    Complete.checked_batch validate_batch precheck_commands Complete.apply_commands
    skald.Prelude.GoMap.put skald.History.Validate.check_events skald.History.Validate.check_event
    skald.History.Validate.validate_references
placeholder_accepted = refl
