-- ===== src/Execution/Batch/Atomic.antt =====
-- Batches of CompleteWorkflowTask of internal/execution/transitions.go.
use skald.Prelude.{
  ℕ, ◌≡◌, refl, String, Bool, true, false, List, [], ◌∷◌, ◌&&◌, nat_eq, string_eq, Outcome, ok, err,
  panic, arith, Bool-cases, ◌⊎◌, inl, inr,
}
use skald.Values.Status.{is_terminal_status}
use skald.Values.Float.{Floats}
use skald.History.Attributes.{Attributes, WorkflowTaskCompleted, workflow_task_completed}
use skald.History.Command.{Command, is_closing, validate_batch}
use skald.Execution.State.{MutableState, ExecError, illegal, execution_closed, task_started}
use skald.Execution.Apply.{apply}
use skald.Execution.Append.{append_event, stamped, ◌>>=◌}
use skald.Execution.Effect.{Effect}
use skald.Execution.Commands.{Seen, precheck_by_type, precheck_commands, nothing_seen}
use skald.Execution.Complete.{apply_command, apply_commands, checked_batch, complete_workflow_task}
use skald.Execution.Batch.{cancels, AreChecked, batch-AreChecked}
use skald.Execution.Batch.Ready.{Ready}
use skald.Execution.Batch.Apply.{is_new, note, is_ok, command-Ready, closing-Succeeds}

-- No timer is canceled twice by the batch.
abbrev pub cancels_once : List ℕ → List Command → Bool
cancels_once canceled [] = true
cancels_once canceled (c ∷ cs) =
    is_new (cancels c.command_type c) canceled
    && cancels_once (note (cancels c.command_type c) canceled) cs

is_ok_cases : {A : Type 0} (r : Outcome ExecError A) → is_ok r ≡ true → (a : A) × (r ≡ ok a)
is_ok_cases (ok a) h = (a, refl)
is_ok_cases (err e) h = cc
is_ok_cases panic h = cc

precheck_cases :
    (s : MutableState) (seen : Seen) (c : Command) (cs : List Command)
    → precheck_commands s seen (c ∷ cs) ≡ ok tt
    → (seen' : Seen) × (precheck_by_type s seen c.command_type c ≡ ok seen')
      × (precheck_commands s seen' cs ≡ ok tt)
unfolding precheck_commands
precheck_cases s seen c cs h = go (precheck_by_type s seen c.command_type c) refl
  where
    go :
        (r : Outcome ExecError Seen)
        → precheck_by_type s seen c.command_type c ≡ r
        → (seen' : Seen) × (precheck_by_type s seen c.command_type c ≡ ok seen')
          × (precheck_commands s seen' cs ≡ ok tt)
    go (ok seen') e = (seen', e, ground arith)
    go (err x) e = absurd (ground arith)
    go panic e = absurd (ground arith)

module _ (F : Floats) (s : MutableState) (id : ℕ) where
  rest_is_ok :
      (t : MutableState) (c : Command) (cs : List Command) (eff : List Effect)
      → (apply_command F c.command_type c id t).0 ≡ ok eff
      → is_ok (apply_commands F cs id (apply_command F c.command_type c id t).1).0 ≡ true
      → is_ok (apply_commands F (c ∷ cs) id t).0 ≡ true
  unfolding apply_commands ◌>>=◌
  rest_is_ok t c cs eff h k = ground arith

  closing_is_ok :
      (t : MutableState) (c : Command) (cs : List Command)
      → cs ≡ []
      → is_ok (apply_command F c.command_type c id t).0 ≡ true
      → is_ok (apply_commands F (c ∷ cs) id t).0 ≡ true
  unfolding apply_commands ◌>>=◌
  closing_is_ok t c [] e k = ground arith
  closing_is_ok t c (d ∷ ds) e k = cc

  apply_commands-is_ok :
      (cs cs' : List Command) (seen : Seen) (canceled : List ℕ) (t : MutableState)
      → AreChecked cs cs'
      → Ready s seen canceled t
      → precheck_commands s seen cs' ≡ ok tt
      → cancels_once canceled cs ≡ true
      → is_ok (apply_commands F cs' id t).0 ≡ true
  unfolding apply_commands ◌>>=◌
  apply_commands-is_ok [] [] seen canceled t h r p o = refl
  apply_commands-is_ok [] (c' ∷ cs') seen canceled t h r p o = absurd h
  apply_commands-is_ok (c ∷ cs) [] seen canceled t h r p o = absurd h
  apply_commands-is_ok (c ∷ cs) (c' ∷ cs') seen canceled t h r p o =
      let (seen', q, p') = precheck_cases s seen c' cs' p in
      elim (Bool-cases (is_closing c'.command_type)) [
        | inl g ↦
            closing_is_ok t c' cs' (h.1 g)
              (closing-Succeeds F t id c' c'.command_type r.is_open g h.0.filled)
        | inr g ↦
            let v =
              command-Ready F s t seen seen' canceled r id c' c'.command_type g h.0.filled q
                (ground (arith, h.0.same_timer)) in
            rest_is_ok t c' cs' v.value v.returned (
              apply_commands-is_ok cs cs' seen' _ _ h.2 v.leaves p'
                (ground (arith, h.0.same_timer)))
      ]

completed-Ready :
    (s : MutableState) (a : WorkflowTaskCompleted)
    → is_terminal_status s.status ≡ false
    → task_started s.workflow_task ≡ true
    → let (x, u) = append_event (workflow_task_completed a) s in
      (x ≡ ok (stamped (workflow_task_completed a) s)) × Ready s nothing_seen [] u
unfolding append_event apply
completed-Ready s a o h = (
  ground arith,
  record {
    is_open = ground arith;
    free_activity = λ k x y. ground arith;
    free_timer = λ k x y. ground arith;
    timer_left = λ n x y. ground arith;
    activity_left = λ n x. ground arith;
  },
)

append_closed :
    (s : MutableState) (a : Attributes)
    → is_terminal_status s.status ≡ true
    → append_event a s ≡ (err (illegal execution_closed), s)
unfolding append_event
append_closed s a h = ground arith

checked_is_valid :
    (F : Floats) (cmds cs : List Command)
    → checked_batch F cmds ≡ ok cs
    → validate_batch F cmds ≡ ok cs
unfolding checked_batch
checked_is_valid F cmds cs h = ground arith

module _ (F : Floats) (identity sdk_name sdk_version : String) (cmds : List Command)
    (s : MutableState) where
  abbrev completed_attrs : WorkflowTaskCompleted
  completed_attrs = record {
    scheduled_event_id = s.workflow_task.scheduled_event_id;
    started_event_id = s.workflow_task.started_event_id;
    identity = identity;
    sdk_name = sdk_name;
    sdk_version = sdk_version;
  }

  -- A batch that passed the checks, in a run that may be closed.
  passed_cases :
      (cs : List Command)
      → cancels_once [] cmds ≡ true
      → task_started s.workflow_task ≡ true
      → checked_batch F cmds ≡ ok cs
      → precheck_commands s nothing_seen cs ≡ ok tt
      → let (r, t) = complete_workflow_task F identity sdk_name sdk_version cmds s in
        (t ≡ s) ⊎ (is_ok r ≡ true)
  unfolding complete_workflow_task ◌>>=◌
  passed_cases cs once h e p = elim (Bool-cases (is_terminal_status s.status)) [
    | inl closed ↦ inl (ground (arith, append_closed s (workflow_task_completed completed_attrs)))
    | inr o ↦
        let (q, r) = completed-Ready s completed_attrs o h in
        inr (
          rw (h, e, p, q)
            (apply_commands-is_ok F s (stamped (workflow_task_completed completed_attrs) s).id cmds
              cs nothing_seen [] _ (batch-AreChecked F cmds cs (checked_is_valid F cmds cs e)) r p
              once))
  ]

-- CompleteWorkflowTask with a batch that cancels no timer twice leaves the state as it was, or
-- succeeds.
pub complete_workflow_task_atomic :
    (F : Floats) (identity sdk_name sdk_version : String) (cmds : List Command) (s : MutableState)
    → cancels_once [] cmds ≡ true
    → let (r, t) = complete_workflow_task F identity sdk_name sdk_version cmds s in
      (t ≡ s) ⊎ ((effects : List Effect) × (r ≡ ok effects))
unfolding complete_workflow_task ◌>>=◌
complete_workflow_task_atomic F i n v cmds s once =
    elim (Bool-cases (task_started s.workflow_task)) [
      | inr h ↦ inl (ground arith)
      | inl h ↦ elim (Bool-cases (is_ok (checked_batch F cmds))) [
        | inr e ↦ inl (ground arith)
        | inl e ↦
            let (cs, e') = is_ok_cases (checked_batch F cmds) e in
            elim (Bool-cases (is_ok (precheck_commands s nothing_seen cs))) [
              | inr p ↦ inl (ground arith)
              | inl p ↦ elim (passed_cases F i n v cmds s cs once h e' (ground arith)) [
                | inl q ↦ inl q
                | inr q ↦ inr (is_ok_cases _ q)
              ]
            ]
      ]
    ]
