-- ===== src/Execution/Batch.antt =====
-- What ValidateBatch of pkg/history/command.go establishes for the commands that
-- CompleteWorkflowTask applies.
pub mod Ready
pub mod Apply
pub mod Atomic
pub mod Twice
use skald.Prelude.{
  ℕ, ◌≡◌, refl, String, Bool, true, false, not, Option, none, some, List, [], ◌∷◌, ◌&&◌, ◌||◌, ◌==◌,
  nat_eq, string_eq, Outcome, ok, err, panic, arith, if◌then◌else◌, ◌>>=◌, ◌>>◌, refuse_if,
  >>=-eq-ok, Bool-cases,
}
use skald.Values.Float.{Floats}
use skald.History.Command
use skald.History.Command.{
  Command, CommandType, CommandError, is_closing, validate_by_type, validate_command,
  validate_batch, check_policy, check_timeouts, check_type_name,
}

abbrev pub is_some : {A : Type 0} → Option A → Bool
is_some none = false
is_some (some a) = true

abbrev pub names_failure : Option Command.FailWorkflowCommand → Bool
names_failure none = false
names_failure (some a) = is_some a.failure

-- The struct that the command's type asks for is there, and so is a failure's detail.
abbrev pub is_filled : CommandType → Command → Bool
is_filled CommandType.unspecified c = false
is_filled CommandType.schedule_activity_task c = is_some c.schedule_activity
is_filled CommandType.request_cancel_activity_task c = is_some c.request_cancel_activity
is_filled CommandType.start_timer c = is_some c.start_timer_cmd
is_filled CommandType.cancel_timer c = is_some c.cancel_timer_cmd
is_filled CommandType.complete_workflow_execution c = is_some c.complete_workflow
is_filled CommandType.fail_workflow_execution c = names_failure c.fail_workflow
is_filled CommandType.cancel_workflow_execution c = is_some c.cancel_workflow
is_filled CommandType.continue_as_new_workflow c = is_some c.continue_as_new
is_filled CommandType.record_marker c = is_some c.record_marker_cmd

-- The timer that a command cancels.
abbrev pub cancels : CommandType → Command → Option ℕ
cancels CommandType.cancel_timer c = elim c.cancel_timer_cmd [
  | none ↦ none
  | some a ↦ some a.started_event_id
]
cancels _ c = none

-- What Validate makes of a command: filled in, of the same type, canceling the same timer.
pub record IsChecked (c c' : Command) : Type 0 where
  pub same_type : c'.command_type ≡ c.command_type
  pub filled : is_filled c'.command_type c' ≡ true
  pub same_timer : cancels c'.command_type c' ≡ cancels c.command_type c

cancels_same :
    (t : CommandType) (c c' : Command)
    → c'.cancel_timer_cmd ≡ c.cancel_timer_cmd
    → cancels t c' ≡ cancels t c
cancels_same CommandType.cancel_timer c c' h = rw h refl
cancels_same _ c c' h = refl

module _ (F : Floats) where
  by_type-IsChecked :
      (t : CommandType) (c c' : Command)
      → validate_by_type F t c ≡ ok c'
      → (c'.command_type ≡ c.command_type)
        × (is_filled t c' ≡ true)
        × (c'.cancel_timer_cmd ≡ c.cancel_timer_cmd)
  unfolding validate_by_type
  by_type-IsChecked CommandType.unspecified c c' h = (ground arith, ground arith, ground arith)
  by_type-IsChecked CommandType.schedule_activity_task c c' h =
      (ground arith, ground arith, ground arith)
  by_type-IsChecked CommandType.request_cancel_activity_task c c' h =
      (ground arith, ground arith, ground arith)
  by_type-IsChecked CommandType.start_timer c c' h = (ground arith, ground arith, ground arith)
  by_type-IsChecked CommandType.cancel_timer c c' h = (ground arith, ground arith, ground arith)
  by_type-IsChecked CommandType.complete_workflow_execution c c' h =
      (ground arith, ground arith, ground arith)
  by_type-IsChecked CommandType.fail_workflow_execution c c' h =
      (ground arith, ground arith, ground arith)
  by_type-IsChecked CommandType.cancel_workflow_execution c c' h =
      (ground arith, ground arith, ground arith)
  by_type-IsChecked CommandType.continue_as_new_workflow c c' h =
      (ground arith, ground arith, ground arith)
  by_type-IsChecked CommandType.record_marker c c' h = (ground arith, ground arith, ground arith)

  pub command-IsChecked : (c c' : Command) → validate_command F c ≡ ok c' → IsChecked c c'
  unfolding validate_command
  command-IsChecked c c' h =
      let (t, f, m) = by_type-IsChecked c.command_type c c' (ground arith) in
      record { same_type = t; filled = cc; same_timer = cc (cancels_same c.command_type c c' m) }

-- What ValidateBatch makes of a batch: each command checked, and none after one that closes the
-- run.
abbrev pub AreChecked : List Command → List Command → Type 0
AreChecked [] [] = Unit
AreChecked (c ∷ cs) (c' ∷ cs') =
    IsChecked c c' × (is_closing c'.command_type ≡ true → cs' ≡ []) × AreChecked cs cs'
AreChecked [] (c' ∷ cs') = ⊥
AreChecked (c ∷ cs) [] = ⊥

closing_is_last :
    (F : Floats) (c c' : Command) (cs cs' : List Command)
    → validate_batch F (c ∷ cs) ≡ ok (c' ∷ cs')
    → is_closing c.command_type ≡ true
    → cs' ≡ []
unfolding validate_batch
closing_is_last F c c' [] cs' h k = ground arith
closing_is_last F c c' (d ∷ ds) cs' h k = ground arith

pub batch-AreChecked :
    (F : Floats) (cs cs' : List Command) → validate_batch F cs ≡ ok cs' → AreChecked cs cs'
unfolding validate_batch
batch-AreChecked F [] [] h = tt
batch-AreChecked F [] (c' ∷ cs') h = cc
batch-AreChecked F (c ∷ cs) [] h = ground arith
batch-AreChecked F (c ∷ cs) (c' ∷ cs') h = (
  command-IsChecked F c c' (ground arith),
  λ k.
      closing_is_last F c c' cs cs' h
        (ground (arith, (command-IsChecked F c c' (ground arith)).same_type)),
  batch-AreChecked F cs cs' (ground arith),
)
