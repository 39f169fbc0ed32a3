-- ===== src/Execution/Batch/Apply.antt =====
-- applyCommand of internal/execution/transitions.go, on a command that passed the checks before
-- the batch.
use skald.Prelude.{
  among, ℕ, ◌≡◌, refl, subst, Bool, true, false, not, Option, none, some, List, ◌∷◌, nat_eq,
  string_eq, Outcome, ok, err, panic, arith,
}
use skald.Prelude.GoMap
use skald.Values.Status.{is_terminal_status}
use skald.Values.Errors.{ApplicationError}
use skald.Values.Float.{Floats}
use skald.Values.Retry.{should_retry_failure}
use skald.History.Attributes.{Attributes}
use skald.History.Event.{Event}
use skald.History.Command
use skald.History.Command.{Command, CommandType, is_closing}
use skald.Execution.State.{MutableState, Exec, ExecError}
use skald.Execution.Apply.{apply}
use skald.Execution.Append.{append_event, deref, ◌>>=◌}
use skald.Execution.Commands.{Seen, has, precheck_by_type}
use skald.Execution.Closing.{
  fail_execution, continue_as_new, decide_retry, retry_decision, retry_in_budget,
}
use skald.Execution.Complete.{
  apply_command, scheduled_attrs, apply_schedule, apply_start_timer, apply_cancel_timer, write,
}
use skald.Execution.Batch.{is_filled, is_some, names_failure, cancels}
use skald.Execution.Batch.Ready.{
  Ready, see_activity, see_timer, append_activity-Ready, append_timer-Ready, append_cancel-Ready,
  append_request-Ready, append_marker-Ready,
}

-- The timer that a command cancels was not canceled by the batch before, and what is canceled then.
abbrev pub is_new : Option ℕ → List ℕ → Bool
is_new none canceled = true
is_new (some id) canceled = not (among id canceled)

abbrev pub note : Option ℕ → List ℕ → List ℕ
note none canceled = canceled
note (some id) canceled = id ∷ canceled

-- A call that returned a value and left a state with `P`.
pub record Succeeds {A : Type 0} (P : MutableState → Type 0)
    (x : Outcome ExecError A × MutableState) : Type 0 where
  pub value : A
  pub returned : x.0 ≡ ok value
  pub leaves : P x.1

-- A command whose struct is there.
filled-Succeeds :
    {A B : Type 0} (P : MutableState → Type 0) (o : Option A) (f : A → Exec B) (t : MutableState)
    → is_some o ≡ true
    → ((a : A) → o ≡ some a → Succeeds P (f a t))
    → Succeeds P ((deref o >>= f) t)
unfolding ◌>>=◌
filled-Succeeds P none f t h k = cc
filled-Succeeds P (some a) f t h k = k a refl

has_cases :
    {V : Type 0} (o : Option V)
    → elim o [ none ↦ false | some v ↦ true ] ≡ true
    → (v : V) × (o ≡ some v)
has_cases none h = cc
has_cases (some v) h = (v, refl)

module _ (F : Floats) (s t : MutableState) (seen : Seen) (canceled : List ℕ)
    (r : Ready s seen canceled t) (id : ℕ) where
  schedule-Ready :
      (a : Command.ScheduleActivityCommand)
      → has (GoMap.get s.activity_ids) a.activity_id ≡ false
      → has (GoMap.get seen.activity_ids) a.activity_id ≡ false
      → Succeeds (Ready s (see_activity a.activity_id seen) canceled) (apply_schedule F a id t)
  unfolding apply_schedule ◌>>=◌
  schedule-Ready a x y =
      let (h, k) = append_activity-Ready s t seen canceled r (scheduled_attrs F a t id) x y in
      rw h (record { value = _; returned = refl; leaves = k })

  start_timer-Ready :
      (a : Command.StartTimerCommand)
      → has (GoMap.get s.timer_ids) a.timer_id ≡ false
      → has (GoMap.get seen.timer_ids) a.timer_id ≡ false
      → Succeeds (Ready s (see_timer a.timer_id seen) canceled) (apply_start_timer F a id t)
  unfolding apply_start_timer ◌>>=◌
  start_timer-Ready a x y =
      let (h, k, l) =
        append_timer-Ready s t seen canceled r
          (record {
            timer_id = a.timer_id;
            start_to_fire_timeout = a.start_to_fire_timeout;
            workflow_task_completed_event_id = id;
          })
          x y in
      let (u, q) = has_cases _ l in rw (h, q) (record { value = _; returned = refl; leaves = k })

  cancel_timer-Ready :
      (n : ℕ)
      → has (GoMap.get t.timers) n ≡ true
      → Succeeds (Ready s seen (n ∷ canceled)) (apply_cancel_timer F n id t)
  unfolding apply_cancel_timer ◌>>=◌
  cancel_timer-Ready n x =
      let (u, q) = has_cases _ x in
      let (h, k) =
        append_cancel-Ready s t seen canceled r
          (record {
            timer_id = u.timer_id;
            started_event_id = n;
            workflow_task_completed_event_id = id;
          })
          x in
      rw (q, h) (record { value = _; returned = refl; leaves = k })

  -- A command that writes one event and has no effect.
  write-Succeeds :
      (P : MutableState → Type 0) (a : Attributes) (e : Event)
      → (append_event a t).0 ≡ ok e
      → P (append_event a t).1
      → Succeeds P (write F a t)
  unfolding write ◌>>=◌
  write-Succeeds P a e h k = rw h (record { value = _; returned = refl; leaves = k })

abbrev pub is_ok : {A : Type 0} → Outcome ExecError A → Bool
is_ok (ok a) = true
is_ok (err e) = false
is_ok panic = false

seen_as :
    {A : Type 0} (s : MutableState) (seen seen' : Seen) (canceled : List ℕ)
    {x : Outcome ExecError A × MutableState}
    → seen ≡ seen'
    → Succeeds (Ready s seen canceled) x
    → Succeeds (Ready s seen' canceled) x
seen_as s seen seen' canceled {x} e h = subst (λ z. Succeeds (Ready s z canceled) x) e h

is_some_cases : {V : Type 0} (o : Option V) → is_some o ≡ true → (v : V) × (o ≡ some v)
is_some_cases none h = cc
is_some_cases (some v) h = (v, refl)

module _ (F : Floats) (s t : MutableState) (seen seen' : Seen) (canceled : List ℕ)
    (r : Ready s seen canceled t) (id : ℕ) (c : Command) where
  -- A command that leaves the run open, of this type.
  pub command-Ready :
      (ty : CommandType)
      → is_closing ty ≡ false
      → is_filled ty c ≡ true
      → precheck_by_type s seen ty c ≡ ok seen'
      → is_new (cancels ty c) canceled ≡ true
      → Succeeds (Ready s seen' (note (cancels ty c) canceled)) (apply_command F ty c id t)
  unfolding apply_command precheck_by_type ◌>>=◌
  command-Ready CommandType.schedule_activity_task g f p n =
      let (a, e) = is_some_cases c.schedule_activity f in
      seen_as s (see_activity a.activity_id seen) seen' canceled (ground arith)
        (rw e (schedule-Ready F s t seen canceled r id a (ground arith) (ground arith)))
  command-Ready CommandType.start_timer g f p n =
      let (a, e) = is_some_cases c.start_timer_cmd f in
      seen_as s (see_timer a.timer_id seen) seen' canceled (ground arith)
        (rw e (start_timer-Ready F s t seen canceled r id a (ground arith) (ground arith)))
  command-Ready CommandType.cancel_timer g f p n =
      let (a, e) = is_some_cases c.cancel_timer_cmd f in
      let left : has (GoMap.get t.timers) a.started_event_id ≡ true =
        ground (arith, r.timer_left a.started_event_id) in
      seen_as s seen seen' _ (ground arith)
        (rw e (cancel_timer-Ready F s t seen canceled r id a.started_event_id left))
  command-Ready CommandType.request_cancel_activity_task g f p n =
      let (a, e) = is_some_cases c.request_cancel_activity f in
      let left : has (GoMap.get t.activities) a.scheduled_event_id ≡ true =
        ground (arith, r.activity_left a.scheduled_event_id) in
      let (h, k) =
        append_request-Ready s t seen canceled r
          (record {
            scheduled_event_id = a.scheduled_event_id;
            workflow_task_completed_event_id = id;
          })
          left in
      seen_as s seen seen' canceled (ground arith)
        (rw e (write-Succeeds F s t seen canceled r id (Ready s seen canceled) _ _ h k))
  command-Ready CommandType.record_marker g f p n =
      let (a, e) = is_some_cases c.record_marker_cmd f in
      let (h, k) = append_marker-Ready s t seen canceled r (record {
        marker_name = a.marker_name;
        marker_id = a.marker_id;
        details = a.details;
        failure = a.failure;
        workflow_task_completed_event_id = id;
      }) in
      seen_as s seen seen' canceled (ground arith)
        (rw e (write-Succeeds F s t seen canceled r id (Ready s seen canceled) _ _ h k))
  command-Ready CommandType.unspecified g f p n = cc
  command-Ready _ g f p n = cc

-- failExecution in an open run, whatever the policy decides.
fail_execution-Succeeds :
    (F : Floats) (t : MutableState) (x : ApplicationError) (id : ℕ)
    → is_terminal_status t.status ≡ false
    → is_ok (fail_execution F (some x) id t).0 ≡ true
unfolding fail_execution decide_retry retry_decision retry_in_budget should_retry_failure
    append_event apply ◌>>=◌
fail_execution-Succeeds F t x id o = ground arith

failure_cases :
    (o : Option Command.FailWorkflowCommand)
    → names_failure o ≡ true
    → (a : Command.FailWorkflowCommand) × (x : ApplicationError) × (o ≡ some a)
      × (a.failure ≡ some x)
failure_cases none h = cc
failure_cases (some a) h = let (x, e) = is_some_cases a.failure h in (a, x, refl, e)

-- A command that closes the run, of this type.
pub closing-Succeeds :
    (F : Floats) (t : MutableState) (id : ℕ) (c : Command) (ty : CommandType)
    → is_terminal_status t.status ≡ false
    → is_closing ty ≡ true
    → is_filled ty c ≡ true
    → is_ok (apply_command F ty c id t).0 ≡ true
unfolding apply_command write continue_as_new append_event apply ◌>>=◌
closing-Succeeds F t id c CommandType.complete_workflow_execution o g f = ground arith
closing-Succeeds F t id c CommandType.cancel_workflow_execution o g f = ground arith
closing-Succeeds F t id c CommandType.continue_as_new_workflow o g f = ground arith
closing-Succeeds F t id c CommandType.fail_workflow_execution o g f =
    let (a, x, e, h) = failure_cases c.fail_workflow f in
    rw (e, h) (fail_execution-Succeeds F t x id o)
closing-Succeeds F t id c CommandType.unspecified o g f = cc
closing-Succeeds F t id c _ o g f = cc
