-- ===== src/Execution/Closed.antt =====
-- The calls of internal/execution on a closed run.
use skald.Prelude.{ℕ, suc, ◌≡◌, refl, true, none, ◌∙◌, ap, nat_eq}
use skald.Prelude.GoMap
use skald.Values.Status.{is_terminal_status}
use skald.Values.Float.{Floats}
use skald.History.Attributes.{Attributes}
use skald.Execution.State.{MutableState, ActivityState, Exec}
use skald.Execution.Append.{append_event, read_now, ◌>>=◌}
use skald.Execution.Activity.{
  pending_activity, fail_activity, timeout_activity, record_activity_heartbeat,
}
use skald.Execution.Operation.{Operation, perform}
use skald.Execution.Keeps.{Keeps}
use skald.Execution.Keeps.Perform.{perform-recorded}
use skald.Execution.Consistent.{IsConsistent}

-- The same state, but for the number of clock readings.
abbrev SameButReads : MutableState → MutableState → Type 0
SameButReads s t = t ≡ record s { reads = t.reads }

module _ (s : MutableState) (closed : is_terminal_status s.status ≡ true) where
  append_event-SameButReads : (attrs : Attributes) → Keeps (SameButReads s) (append_event attrs)
  unfolding append_event
  append_event-SameButReads attrs = record {
    at = λ t h.
        let e : is_terminal_status t.status ≡ true =
          ap (λ (u : MutableState). is_terminal_status u.status) h ∙ closed in
        rw e h;
  }

  read_now-SameButReads : Keeps (SameButReads s) read_now
  unfolding ◌>>=◌
  read_now-SameButReads = record {
    at = λ t h. ap (λ (u : MutableState). record u { reads = suc t.reads }) h;
  }

  none_pending :
      {B : Type 0} (id : ℕ) (f : ActivityState → Exec B)
      → IsConsistent s
      → SameButReads s ((pending_activity id >>= f) s).1
  unfolding pending_activity ◌>>=◌
  none_pending id f c =
      let e : GoMap.get s.activities id ≡ none =
        ap (λ m. GoMap.get m id) (c.body.closed closed).0
        ∙ GoMap.get-empty {V = ActivityState} id in
      rw e refl

-- In a well-formed state of a closed run, each call of Operation leaves the state as it is, the
-- history with it; at most the clock has been read.
pub perform_closed :
    (F : Floats) (op : Operation) (s : MutableState)
    → IsConsistent s
    → is_terminal_status s.status ≡ true
    → perform F op s ≡ record s { reads = (perform F op s).reads }
unfolding perform fail_activity timeout_activity record_activity_heartbeat
perform_closed F (Operation.fail_activity id f i) s c h = none_pending s h id _ c
perform_closed F (Operation.timeout_activity id k) s c h = none_pending s h id _ c
perform_closed F (Operation.record_activity_heartbeat id d) s c h = none_pending s h id _ c
perform_closed F op s c h =
    perform-recorded (SameButReads s) (append_event-SameButReads s h) (read_now-SameButReads s h) F
      op s refl refl
