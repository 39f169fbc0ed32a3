-- ===== src/Execution/Polls.antt =====
-- StartActivity of internal/execution/activity.go under repeated polls.
use skald.Prelude.{
  ℕ, suc, ◌≡◌, ◌≢◌, refl, sym, ap, ◌∙◌, String, true, false, some, [], ◌∷◌, ◌++◌, ◌==◌, nat_eq,
  string_eq, ok, err, arith, if◌then◌else◌, length, length-append, get_elem?,
}
use text.Mathlib.TextEquality.{eq_iff}
use skald.Prelude.GoMap
use skald.Values.Status.{is_terminal_status}
use skald.Values.Float.{Floats}
use skald.History.Attributes.{ActivityTaskStarted, activity_task_started}
use skald.History.Event.{Event, History, get_event}
use skald.History.Dense.{next_of_IsDense}
use skald.Execution.State.{
  MutableState, ActivityState, illegal, activity_already_started, is_started,
}
use skald.Execution.Apply.{apply, started_activity}
use skald.Execution.Append.{append_event, stamped, ◌>>=◌}
use skald.Execution.Activity.{start_activity, start_again, pending_activity}
use skald.Execution.Consistent.{IsConsistent}

get_elem?-push : (h : History) (e : Event) → get_elem? (h ++ e ∷ []) (length h) ≡ some e
get_elem?-push [] e = refl
get_elem?-push (f ∷ h) e = get_elem?-push h e

-- The event that AppendEvent has just written is found under its id.
get_event-push :
    (h : History) (e : Event)
    → e.id ≡ suc (length h)
    → get_event (h ++ e ∷ []) (suc (length h)) ≡ some e
unfolding get_event
get_event-push h e p = ground (arith, p, get_elem?-push h e, length-append h (e ∷ []))

get_event_pushed :
    (h : History) (e : Event) → e.id ≡ suc (length h) → get_event (h ++ e ∷ []) e.id ≡ some e
get_event_pushed h e p = ap (get_event (h ++ e ∷ [])) p ∙ get_event-push h e p

started_facts :
    (s : MutableState) (a : ActivityTaskStarted) (act : ActivityState)
    → is_terminal_status s.status ≡ false
    → GoMap.get s.activities a.scheduled_event_id ≡ some act
    → is_started act ≡ false
    → let (x, t) = append_event (activity_task_started a) s in
      let n = stamped (activity_task_started a) s in
      (x ≡ ok n)
      × (t.events ≡ s.events ++ n ∷ [])
      × (GoMap.get t.activities a.scheduled_event_id ≡ some (started_activity n.id n.time a act))
unfolding append_event apply
started_facts s a act o h k =
    rw (o, h, k) (refl, refl, GoMap.get-put_self s.activities a.scheduled_event_id _)

-- In a state where the activity is started by event `e`, a poll with request id `q`.
poll_again :
    (F : Floats) (t : MutableState) (id : ℕ) (act : ActivityState) (e : Event) (identity q : String)
    → GoMap.get t.activities id ≡ some act
    → is_started act ≡ true
    → get_event t.events act.started_event_id ≡ some e
    → start_activity F id identity q t
      ≡ (if act.request_id == q then (ok e, t) else (err (illegal activity_already_started), t))
unfolding start_activity start_again pending_activity ◌>>=◌
poll_again F t id act e i q h k g = ground arith

first_poll :
    (F : Floats) (s : MutableState) (id : ℕ) (act : ActivityState) (identity q : String)
    → GoMap.get s.activities id ≡ some act
    → is_started act ≡ false
    → (a : ActivityTaskStarted) × (a.scheduled_event_id ≡ id)
      × (a.request_id ≡ q)
      × (start_activity F id identity q s ≡ append_event (activity_task_started a) s)
unfolding start_activity pending_activity ◌>>=◌
first_poll F s id act i q h k = rw (h, k) (_, refl, refl, refl)

-- StartActivity of a pending activity that is not started, in a well-formed state of an open run,
-- succeeds with one new event. Polled again with the same request id it returns the same event, and
-- with another one it is refused; neither poll changes the state.
pub start_activity_again :
    (F : Floats) (s : MutableState) (id : ℕ) (act : ActivityState) (identity q other : String)
    → IsConsistent s
    → is_terminal_status s.status ≡ false
    → GoMap.get s.activities id ≡ some act
    → is_started act ≡ false
    → q ≢ other
    → let (r, t) = start_activity F id identity q s in
      (e : Event) × (r ≡ ok e)
      × (t.events ≡ s.events ++ e ∷ [])
      × (start_activity F id identity q t ≡ (ok e, t))
      × (start_activity F id identity other t ≡ (err (illegal activity_already_started), t))
unfolding started_activity
start_activity_again F s id act identity q other c o h k d =
    let (a, same, request, first) = first_poll F s id act identity q h k in
    let (x, events, pending) = started_facts s a act o (ap (GoMap.get s.activities) same ∙ h) k in
    let n = stamped (activity_task_started a) s in
    let number = next_of_IsDense s.events c.dense in
    let t = (append_event (activity_task_started a) s).1 in
    let found_again : get_event t.events n.id ≡ some n =
      ap (λ es. get_event es n.id) events ∙ get_event_pushed s.events n number in
    let again = λ (r : String).
      poll_again F t id (started_activity n.id n.time a act) n identity r
        (ap (GoMap.get t.activities) (sym same) ∙ pending) (ground (arith, number)) found_again in
    rw first (
      n,
      x,
      events,
      again q ∙ ground (arith, request, eq_iff a.request_id q),
      again other ∙ ground (arith, request, d, eq_iff a.request_id other),
    )
