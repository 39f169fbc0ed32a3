-- ===== src/Execution/Limits.antt =====
-- The limits on a history (pkg/history/history.go) and the operations that append to it.
use skald.Prelude.{
  ℕ, suc, ◌≤◌, ◌<◌, ◌≡◌, String, true, false, Option, [], ◌∷◌, length, length-append, ok, err,
  arith, string_eq,
}
use skald.Values.Payload.{Payload, WorkflowExecution}
use skald.Values.Status.{is_terminal_status}
use skald.History.Event.{History, Time}
use skald.History.Validate.{too_many_events, max_history_events, validate}
use skald.Execution.State.{MutableState, invalid_history}
use skald.Execution.Apply.{apply}
use skald.Execution.Append.{append_event, rebuild, ◌>>=◌}
use skald.Execution.Transitions.{terminate}

validate_oversized :
    (h : History) → max_history_events < length h → validate h ≡ err too_many_events
unfolding validate
validate_oversized [] l = absurd (omega arith)
validate_oversized (e ∷ es) l = ground arith

rebuild_oversized :
    (namespace : String) (exec : WorkflowExecution) (h : History) (c : ℕ → Time)
    → max_history_events < length h
    → rebuild namespace exec h c ≡ err (invalid_history too_many_events)
unfolding rebuild
rebuild_oversized namespace exec h c l = rw (validate_oversized h l, rebuild)

-- AppendEvent has no limit on the length of a history. Terminate on an open run whose history holds
-- the most events that Validate accepts succeeds, whatever the length, and after it Rebuild
-- refuses the history, so the run can be loaded no more.
pub rebuild-terminate_oversized :
    (s : MutableState) (reason : String) (details : Option Payload) (identity : String)
    (namespace : String) (exec : WorkflowExecution) (c : ℕ → Time)
    → is_terminal_status s.status ≡ false
    → max_history_events ≤ length s.events
    → let (r, t) = terminate reason details identity s in
      (r ≡ ok tt)
      × (is_terminal_status t.status ≡ true)
      × (length t.events ≡ suc (length s.events))
      × (rebuild namespace exec t.events c ≡ err (invalid_history too_many_events))
unfolding terminate append_event apply rebuild ◌>>=◌
rebuild-terminate_oversized s reason details identity namespace exec c o l = (
  ground arith,
  ground arith,
  rw o (omega (arith, length-append s.events _)),
  rw o (rebuild_oversized namespace exec _ c (omega (arith, length-append s.events _))),
)
