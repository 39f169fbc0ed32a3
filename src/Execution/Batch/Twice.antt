-- ===== src/Execution/Batch/Twice.antt =====
-- A batch of CompleteWorkflowTask (internal/execution/transitions.go) that cancels a timer twice.
use skald.Prelude.{
  ℕ, ◌+◌, ◌≡◌, ◌≢◌, refl, ap, ◌∙◌, String, true, false, none, some, List, [], ◌∷◌, nat_eq, ok,
  panic, arith, length, length-append,
}
use skald.Prelude.GoMap
use skald.Values.Status.{is_terminal_status}
use skald.Values.Float.{Floats}
use skald.History.Attributes.{WorkflowTaskCompleted, workflow_task_completed}
use skald.History.Command.{Command, CommandType, validate_batch, validate_command}
use skald.Execution.State.{MutableState, TimerState, task_started}
use skald.Execution.Apply.{apply}
use skald.Execution.Append.{append_event, stamped, ◌>>=◌}
use skald.Execution.Commands.{precheck_by_type, precheck_commands, nothing_seen}
use skald.Execution.Complete.{
  apply_command, apply_commands, apply_cancel_timer, checked_batch, complete_workflow_task,
}

abbrev pub cancel_timer_command : ℕ → Command
cancel_timer_command id = record {
  command_type = CommandType.cancel_timer;
  schedule_activity = none;
  request_cancel_activity = none;
  start_timer_cmd = none;
  cancel_timer_cmd = some (record { started_event_id = id });
  complete_workflow = none;
  fail_workflow = none;
  cancel_workflow = none;
  continue_as_new = none;
  record_marker_cmd = none;
}

abbrev pub twice : ℕ → List Command
twice id = cancel_timer_command id ∷ cancel_timer_command id ∷ []

-- The checks see nothing: the batch is valid, and the timer is pending before it.
twice_is_checked : (F : Floats) (id : ℕ) → id ≢ 0 → checked_batch F (twice id) ≡ ok (twice id)
unfolding checked_batch validate_batch validate_command
twice_is_checked F id h = ground arith

twice_is_prechecked :
    (s : MutableState) (id : ℕ) (old : TimerState)
    → GoMap.get s.timers id ≡ some old
    → precheck_commands s nothing_seen (twice id) ≡ ok tt
unfolding precheck_commands precheck_by_type
twice_is_prechecked s id old h = ground arith

cancel_absent :
    (F : Floats) (s : MutableState) (n id : ℕ)
    → GoMap.get s.timers id ≡ none
    → apply_cancel_timer F id n s ≡ (panic, s)
unfolding apply_cancel_timer ◌>>=◌
cancel_absent F s n id h = rw h refl

module _ (F : Floats) (s : MutableState) (n id : ℕ) where
  cancel_pending :
      (old : TimerState)
      → is_terminal_status s.status ≡ false
      → GoMap.get s.timers id ≡ some old
      → let (r, t) = apply_cancel_timer F id n s in
        (r ≡ ok []) × (GoMap.get t.timers id ≡ none) × (length t.events ≡ length s.events + 1)
  unfolding apply_cancel_timer append_event apply ◌>>=◌
  cancel_pending old o h = (
    rw (h, o, h) refl,
    rw (h, o, h) (GoMap.get-delete_self s.timers id),
    rw (h, o, h) (length-append s.events _),
  )

  twice_panics :
      (old : TimerState)
      → is_terminal_status s.status ≡ false
      → GoMap.get s.timers id ≡ some old
      → let (r, t) = apply_commands F (twice id) n s in
        (r ≡ panic) × (length t.events ≡ length s.events + 1)
  unfolding apply_commands apply_command ◌>>=◌
  twice_panics old o h =
      let (p, q, l) = cancel_pending old o h in
      rw (p, cancel_absent F (apply_cancel_timer F id n s).1 n id q) (refl, l)

completed_facts :
    (s : MutableState) (a : WorkflowTaskCompleted)
    → is_terminal_status s.status ≡ false
    → task_started s.workflow_task ≡ true
    → let (r, t) = append_event (workflow_task_completed a) s in
      (r ≡ ok (stamped (workflow_task_completed a) s))
      × (is_terminal_status t.status ≡ false)
      × (t.timers ≡ s.timers)
      × (length t.events ≡ length s.events + 1)
unfolding append_event apply
completed_facts s a o h = rw (o, h) (refl, o, refl, length-append s.events _)

-- A batch that cancels a pending timer twice, completing a started workflow task of an open run,
-- ends in a nil dereference, and leaves two more events in the history than there were: the
-- checks made before the batch accept it.
pub complete_workflow_task-twice :
    (F : Floats) (identity sdk_name sdk_version : String) (s : MutableState) (id : ℕ)
    (old : TimerState)
    → is_terminal_status s.status ≡ false
    → task_started s.workflow_task ≡ true
    → id ≢ 0
    → GoMap.get s.timers id ≡ some old
    → let (r, t) = complete_workflow_task F identity sdk_name sdk_version (twice id) s in
      (r ≡ panic) × (length t.events ≡ length s.events + 2)
unfolding complete_workflow_task ◌>>=◌
complete_workflow_task-twice F i n v s id old o h z g =
    let a : WorkflowTaskCompleted = record {
      scheduled_event_id = s.workflow_task.scheduled_event_id;
      started_event_id = s.workflow_task.started_event_id;
      identity = i;
      sdk_name = n;
      sdk_version = v;
    } in
    let (r, o', t, l) = completed_facts s a o h in
    let (p, m) =
      twice_panics F _ (stamped (workflow_task_completed a) s).id id old o'
        (ap (λ w. GoMap.get w id) t ∙ g) in
    rw (h, twice_is_checked F id z, twice_is_prechecked s id old g, r) (p, omega (arith, m, l))
