-- ===== src/Execution/Replay/Recovery.antt =====
-- Rebuild, applied to the history that a run has written.
use skald.Prelude.{ℕ, ◌≡◌, refl, String, true, List, All, ok}
use skald.Values.Payload.{WorkflowExecution}
use skald.Values.Float.{Floats}
use skald.History.Event.{Time}
use skald.History.Validate.{validate}
use skald.Execution.State.{MutableState, new_mutable_state}
use skald.Execution.Append.{replay, rebuild}
use skald.Execution.Operation.{Operation, perform_each, is_recorded}
use skald.Execution.Keeps.Perform.{perform_each-recorded}
use skald.Execution.Replay.{IsSynced, with_clock, append_event-IsSynced, read_now-IsSynced}

new-IsSynced :
    (namespace : String) (exec : WorkflowExecution) (now : ℕ → Time)
    → IsSynced (new_mutable_state namespace exec now)
unfolding replay new_mutable_state
new-IsSynced namespace exec now = record { replays = λ c. refl }

-- The state of a new run after these calls.
abbrev pub run_of : Floats → String → WorkflowExecution → (ℕ → Time) → List Operation → MutableState
run_of F namespace exec now ops = perform_each F ops (new_mutable_state namespace exec now)

pub run_of-IsSynced :
    (F : Floats) (namespace : String) (exec : WorkflowExecution) (now : ℕ → Time)
    (ops : List Operation)
    → All (λ op. is_recorded op ≡ true) ops
    → IsSynced (run_of F namespace exec now ops)
run_of-IsSynced F namespace exec now ops r =
    perform_each-recorded IsSynced append_event-IsSynced read_now-IsSynced F ops
      (new_mutable_state namespace exec now) r (new-IsSynced namespace exec now)

-- After any sequence of calls other than FailActivity, TimeoutActivity and
-- RecordActivityHeartbeat on a new run, succeeding or not, Rebuild from the history reproduces
-- the state, up to the clock and the store's version, whenever the history passes Validate.
pub rebuild-perform_each :
    (F : Floats) (namespace : String) (exec : WorkflowExecution) (now c : ℕ → Time)
    (ops : List Operation)
    → All (λ op. is_recorded op ≡ true) ops
    → validate (run_of F namespace exec now ops).events ≡ ok tt
    → rebuild
        (run_of F namespace exec now ops).namespace
        (run_of F namespace exec now ops).execution
        (run_of F namespace exec now ops).events
        c
      ≡ ok (with_clock c (run_of F namespace exec now ops))
unfolding rebuild
rebuild-perform_each F namespace exec now c ops r v =
    rw (v, rebuild) ((run_of-IsSynced F namespace exec now ops r).replays c)
