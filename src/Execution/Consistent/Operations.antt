-- ===== src/Execution/Consistent/Operations.antt =====
-- The operations of internal/execution and the well-formedness of states.
use skald.Prelude.{
  ℕ, suc, ◌≡◌, refl, String, Bool, true, false, Option, none, some, List, [], ◌∷◌, inl, inr,
  Outcome, ok, err, panic, arith, Option-cases, nat_eq,
}
use skald.Prelude.GoMap
use skald.Values.Payload.{Payload, WorkflowExecution}
use skald.Values.Errors.{ApplicationError, TimeoutKind}
use skald.Values.Float.{Floats}
use skald.History.Attributes.{Attributes}
use skald.History.Event.{Time, Duration}
use skald.Execution.State.{
  MutableState, ActivityState, TimerState, Exec, ExecError, Transition, new_mutable_state,
}
use skald.Execution.Append.{read_now, refuse_when, modify, pure, ◌>>=◌, continue}
use skald.Execution.Activity.{
  pending_activity, set_activity, retry_activity, retry_or_write, decide_retry, within_deadline,
  fail_activity, timeout_activity, record_activity_heartbeat,
}
use skald.Execution.Operation.{Operation, perform, perform_each}
use skald.Execution.Keeps.{Keeps, Keeps-bind, Keeps-if, Keeps-pure, keeps_rules}
use skald.Execution.Keeps.Operations.{wake_workflow-Keeps}
use skald.Execution.Keeps.Perform.{perform-recorded}
use skald.Execution.Consistent.{IsConsistent, IsIndex-empty}
use skald.Execution.Consistent.Append.{
  append_event-IsConsistent, read_now-IsConsistent, read_clock-IsConsistent,
  set_activity-IsConsistent,
}

-- A bind whose first part establishes `Q`, which is enough for `P` afterwards.
bind_cases :
    {A B : Type 0} (P Q : MutableState → Type 0) (m : Exec A) (f : A → Exec B) (s : MutableState)
    → Q (m s).1
    → ((t : MutableState) → Q t → P t)
    → ((a : A) (t : MutableState) → Q t → P (f a t).1)
    → P ((m >>= f) s).1
unfolding ◌>>=◌
bind_cases {A} {B} P Q m f s q stop go = on (m s).0
  where
    on : (r : Outcome ExecError A) → P (continue r f (m s).1).1
    on (ok a) = go a (m s).1 q
    on (err e) = stop (m s).1 q
    on panic = stop (m s).1 q

pending_cases :
    {B : Type 0} (P : MutableState → Type 0) (id : ℕ) (f : ActivityState → Exec B)
    (s : MutableState)
    → P s
    → ((act : ActivityState) → GoMap.get s.activities id ≡ some act → P (f act s).1)
    → P ((pending_activity id >>= f) s).1
unfolding pending_activity ◌>>=◌
pending_cases P id f s h k = elim (Option-cases (GoMap.get s.activities id)) [
  | inl e ↦ rw e h
  | inr (act, e) ↦ rw e (k act e)
]

refuse_cases :
    {B : Type 0} (P : MutableState → Type 0) (b : Bool) (t : Transition) (m : Exec B)
    (s : MutableState)
    → P s
    → P (m s).1
    → P ((refuse_when b t >>= λ _. m) s).1
unfolding ◌>>=◌
refuse_cases P true t m s h k = h
refuse_cases P false t m s h k = k

-- Well-formed, with this pending activity.
record Holds (id : ℕ) (act : ActivityState) (s : MutableState) : Type 0 where
  consistent : IsConsistent s
  pending : GoMap.get s.activities id ≡ some act

module _ (id : ℕ) (act : ActivityState) where
  read_now-Holds : Keeps (Holds id act) read_now
  unfolding ◌>>=◌
  read_now-Holds = record {
    at = λ s h. record {
      consistent = read_clock-IsConsistent s (suc s.reads) h.consistent;
      pending = h.pending;
    };
  }

  within_deadline-Holds :
      (F : Floats) (delay : Option Duration) → Keeps (Holds id act) (within_deadline F act delay)
  unfolding within_deadline
  within_deadline-Holds F none = search keeps_rules
  within_deadline-Holds F (some d) = search (keeps_rules, read_now-Holds) depth 9

  decide_retry-Holds :
      (F : Floats) (failure : Option ApplicationError)
      → Keeps (Holds id act) (decide_retry F act failure)
  unfolding decide_retry
  decide_retry-Holds F failure = search (keeps_rules, within_deadline-Holds) depth 9

  retry_activity-IsConsistent :
      (failure : Option ApplicationError) (delay : Duration) (s : MutableState)
      → Holds id act s
      → IsConsistent (retry_activity id act failure delay s).1
  unfolding retry_activity ◌>>=◌
  retry_activity-IsConsistent failure delay s h =
      read_clock-IsConsistent _ (suc s.reads)
        (set_activity-IsConsistent s id act _ h.consistent h.pending refl refl (omega arith))

  retry_or_write-IsConsistent :
      (F : Floats) (failure : Option ApplicationError) (attrs : Attributes)
      (delay : Option Duration) (s : MutableState)
      → Holds id act s
      → IsConsistent (retry_or_write F id act failure attrs delay s).1
  unfolding retry_or_write
  retry_or_write-IsConsistent F failure attrs (some d) s h =
      retry_activity-IsConsistent failure d s h
  retry_or_write-IsConsistent F failure attrs none s h =
      (Keeps-bind _ _ (append_event-IsConsistent attrs) (λ ev.
          wake_workflow-Keeps IsConsistent append_event-IsConsistent read_now-IsConsistent)).at
        s h.consistent

  -- The part of FailActivity and TimeoutActivity after the activity was found.
  decided-IsConsistent :
      (F : Floats) (failure : Option ApplicationError) (attrs : Attributes) (s : MutableState)
      → Holds id act s
      → IsConsistent
          ((decide_retry F act failure >>= λ d. retry_or_write F id act failure attrs d) s).1
  decided-IsConsistent F failure attrs s h =
      bind_cases IsConsistent (Holds id act) (decide_retry F act failure) _ s
        ((decide_retry-Holds F failure).at s h) (λ t q. q.consistent)
        (λ d t q. retry_or_write-IsConsistent F failure attrs d t q)

fail_activity-IsConsistent :
    (F : Floats) (id : ℕ) (failure : Option ApplicationError) (identity : String) (s : MutableState)
    → IsConsistent s
    → IsConsistent (fail_activity F id failure identity s).1
unfolding fail_activity
fail_activity-IsConsistent F id failure identity s c = pending_cases IsConsistent id _ s c λ act e.
    refuse_cases IsConsistent _ _ _ s c
      (decided-IsConsistent id act F failure _ s (record { consistent = c; pending = e }))

timeout_activity-IsConsistent :
    (F : Floats) (id : ℕ) (kind : TimeoutKind) (s : MutableState)
    → IsConsistent s
    → IsConsistent (timeout_activity F id kind s).1
unfolding timeout_activity
timeout_activity-IsConsistent F id kind s c =
    pending_cases IsConsistent id _ s c
      λ act e. decided-IsConsistent id act F _ _ s (record { consistent = c; pending = e })

beat-IsConsistent :
    (id : ℕ) (act : ActivityState) (details : Option Payload) (deadline : Time) (s : MutableState)
    → Holds id act s
    → IsConsistent
        ((modify (
              set_activity id
                (record act { last_heartbeat_details = details; heartbeat_deadline = deadline }))
            >>= λ _. pure act.cancel_requested)
          s).1
unfolding ◌>>=◌
beat-IsConsistent id act details deadline s h =
    set_activity-IsConsistent s id act _ h.consistent h.pending refl refl (omega arith)

record_activity_heartbeat-IsConsistent :
    (id : ℕ) (details : Option Payload) (s : MutableState)
    → IsConsistent s
    → IsConsistent (record_activity_heartbeat id details s).1
unfolding record_activity_heartbeat
record_activity_heartbeat-IsConsistent id details s c = pending_cases IsConsistent id _ s c λ act e.
    refuse_cases IsConsistent _ _ _ s c (
      bind_cases IsConsistent (Holds id act) _ _ s
        ((Keeps-if _ _ _ (Keeps-bind _ _ (read_now-Holds id act) (λ now. Keeps-pure _))
            (Keeps-pure _)).at
          s (record { consistent = c; pending = e }))
        (λ t q. q.consistent) (λ deadline t q. beat-IsConsistent id act details deadline t q))

-- Every call of Operation, whatever it returns, keeps the state of a run well-formed: its event ids dense from
-- 1, each index in agreement with its table, every id that pending work names at most the last
-- event's, a started workflow task scheduled, and nothing pending in a closed run.
pub perform-IsConsistent :
    (F : Floats) (op : Operation) (s : MutableState)
    → IsConsistent s
    → IsConsistent (perform F op s)
unfolding perform
perform-IsConsistent F (Operation.fail_activity id f i) s c =
    fail_activity-IsConsistent F id f i s c
perform-IsConsistent F (Operation.timeout_activity id k) s c =
    timeout_activity-IsConsistent F id k s c
perform-IsConsistent F (Operation.record_activity_heartbeat id d) s c =
    record_activity_heartbeat-IsConsistent id d s c
perform-IsConsistent F op s c =
    perform-recorded IsConsistent append_event-IsConsistent read_now-IsConsistent F op s refl c

new-IsConsistent :
    (namespace : String) (exec : WorkflowExecution) (now : ℕ → Time)
    → IsConsistent (new_mutable_state namespace exec now)
unfolding new_mutable_state
new-IsConsistent namespace exec now = record {
  dense = tt;
  body = record {
    activities = IsIndex-empty _ 0;
    timers = IsIndex-empty _ 0;
    each_activity = λ id a h. cc (GoMap.get-empty {V = ActivityState} id);
    each_timer = λ id t h. cc (GoMap.get-empty {V = TimerState} id);
    task = omega arith;
    closed = λ h. cc;
  };
}

perform_each-IsConsistent :
    (F : Floats) (ops : List Operation) (s : MutableState)
    → IsConsistent s
    → IsConsistent (perform_each F ops s)
unfolding perform_each
perform_each-IsConsistent F [] s c = c
perform_each-IsConsistent F (op ∷ ops) s c =
    perform_each-IsConsistent F ops (perform F op s) (perform-IsConsistent F op s c)

-- Every state that a sequence of calls of Operation on a new run leads to, whatever they returned,
-- is well-formed.
pub reachable-IsConsistent :
    (F : Floats) (namespace : String) (exec : WorkflowExecution) (now : ℕ → Time)
    (ops : List Operation)
    → IsConsistent (perform_each F ops (new_mutable_state namespace exec now))
reachable-IsConsistent F namespace exec now ops =
    perform_each-IsConsistent F ops _ (new-IsConsistent namespace exec now)
