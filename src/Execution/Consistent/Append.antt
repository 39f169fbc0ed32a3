-- ===== src/Execution/Consistent/Append.antt =====
-- Appending an event, reading the clock and writing through a pending activity
-- (internal/execution), and the well-formedness of states.
use skald.Prelude.{
  ℕ, suc, ◌≤◌, ◌≡◌, refl, subst, ap, false, some, [], ◌∷◌, ◌++◌, inl, inr, length, length-append,
  Outcome, ok, err, panic, arith, Bool-cases, nat_eq,
}
use skald.Prelude.GoMap
use skald.Values.Status.{is_terminal_status}
use skald.History.Attributes.{Attributes}
use skald.History.Event.{Event, History, Time, next_event_id}
use skald.Execution.State.{MutableState, ActivityState, ExecError}
use skald.Execution.Apply.{apply}
use skald.Execution.Append.{append_event, push_event, commit_event, read_now, ◌>>=◌}
use skald.Execution.Activity.{set_activity}
use skald.Execution.Replay.{apply_frame}
use skald.Execution.Keeps.{Keeps}
use skald.Execution.Consistent.{IsBody, IsConsistent, IsIndex-replace}
use skald.History.Dense.{IsDense-push, next_of_IsDense}
use skald.Execution.Consistent.Apply.{apply-IsBody}

-- A body reads neither the events nor the clock.
IsBody-view :
    (n m : ℕ) (s : MutableState) (es : History) (k : ℕ)
    → m ≡ n
    → IsBody n s
    → IsBody m (record s { events = es; reads = k })
IsBody-view n m s es k e b = rw e (record {
  activities = b.activities;
  timers = b.timers;
  each_activity = b.each_activity;
  each_timer = b.each_timer;
  task = b.task;
  closed = b.closed;
})

pub read_clock-IsConsistent :
    (s : MutableState) (k : ℕ) → IsConsistent s → IsConsistent (record s { reads = k })
read_clock-IsConsistent s k c = record {
  dense = c.dense;
  body = IsBody-view (length s.events) (length s.events) s s.events k refl c.body;
}

commit-IsConsistent :
    (s u : MutableState) (time : Time) (a : Attributes)
    → IsConsistent s
    → is_terminal_status s.status ≡ false
    → apply s (next_event_id s.events) time a ≡ ok u
    → IsConsistent (push_event (record { id = next_event_id s.events; time = time; attrs = a }) u)
commit-IsConsistent s u time a c o h =
    let next = next_of_IsDense s.events c.dense in
    let frame = apply_frame s u (next_event_id s.events) time a h in
    let ev : Event = record { id = next_event_id s.events; time = time; attrs = a } in
    record {
      dense = rw frame.events (IsDense-push 0 s.events ev c.dense (omega (arith, next)));
      body =
          IsBody-view (suc (length s.events)) (length (u.events ++ ev ∷ [])) u (u.events ++ ev ∷ [])
            u.reads (omega (arith, length-append u.events (ev ∷ []), ap length frame.events))
            (apply-IsBody (length s.events) s u time a c.body o
              (subst (λ id. apply s id time a ≡ ok u) next h));
    }

append_open-IsConsistent :
    (s : MutableState) (time : Time) (a : Attributes) (r : Outcome ExecError MutableState)
    → IsConsistent s
    → is_terminal_status s.status ≡ false
    → apply s (next_event_id s.events) time a ≡ r
    → IsConsistent
        (commit_event (record { id = next_event_id s.events; time = time; attrs = a }) s r).1
append_open-IsConsistent s time a (ok u) c o h = commit-IsConsistent s u time a c o h
append_open-IsConsistent s time a (err e) c o h = c
append_open-IsConsistent s time a panic c o h = c

pub append_event-IsConsistent : (attrs : Attributes) → Keeps IsConsistent (append_event attrs)
unfolding append_event
append_event-IsConsistent attrs = record {
  at = λ s c. elim (Bool-cases (is_terminal_status s.status)) [
    | inl closed ↦ rw closed c
    | inr open_ ↦ rw open_ (
        append_open-IsConsistent (record s { reads = suc s.reads }) (s.now s.reads) attrs _
          (read_clock-IsConsistent s (suc s.reads) c) open_ refl)
  ];
}

pub read_now-IsConsistent : Keeps IsConsistent read_now
unfolding ◌>>=◌
read_now-IsConsistent = record { at = λ s c. read_clock-IsConsistent s (suc s.reads) c }

-- A pending activity written through its pointer.
pub set_activity-IsConsistent :
    (s : MutableState) (id : ℕ) (act act' : ActivityState)
    → IsConsistent s
    → GoMap.get s.activities id ≡ some act
    → act'.activity_id ≡ act.activity_id
    → act'.scheduled_event_id ≡ act.scheduled_event_id
    → act'.started_event_id ≤ act.started_event_id
    → IsConsistent (set_activity id act' s)
set_activity-IsConsistent s id act act' c e same from started = record {
  dense = c.dense;
  body = record {
    activities =
        IsIndex-replace (λ (a : ActivityState). a.activity_id) (length s.events) id s.activities
          s.activity_ids act act' c.body.activities e same;
    timers = c.body.timers;
    each_activity = λ j w h. ground (
      arith,
      GoMap.get-put s.activities id j act',
      c.body.each_activity j w,
      c.body.each_activity id act,
    );
    each_timer = c.body.each_timer;
    task = c.body.task;
    closed = λ h.
        let (none_left, t, w) = c.body.closed h in
        absurd (cc (GoMap.get-empty {V = ActivityState} id));
  };
}
