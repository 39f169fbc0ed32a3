-- ===== src/Execution/Consistent/Parts.antt =====
-- The changes that `apply` of internal/execution/mutablestate.go makes, and the well-formedness of
-- states.
use skald.Prelude.{
  ℕ, suc, ◌≤◌, ◌≡◌, refl, String, true, false, some, inl, inr, ok, nat_eq, string_eq, arith,
  Option-cases, subst,
}
use skald.Prelude.Int.{◌+ℤ◌}
use skald.Prelude.GoMap
use skald.Prelude.GoMap.{GoMap}
use skald.Values.Status.{WorkflowStatus, is_terminal_status}
use skald.History.Attributes.{ActivityTaskScheduled, ActivityTaskStarted, TimerStarted}
use skald.History.Event.{Time}
use skald.Execution.State.{MutableState, ActivityState, TimerState}
use skald.Execution.Apply.{
  scheduled_activity, apply_activity_scheduled, started_activity, apply_activity_started,
  close_activity, apply_timer_started, close_timer, close, request_activity_cancel,
}
use skald.Execution.Consistent.{
  IsBody, IsIndex, IsTask, IsActivity, IsIndex-empty, IsIndex-mono, IsIndex-insert, IsIndex-replace,
  IsIndex-remove,
}

abbrev by_activity : ActivityState → String
by_activity a = a.activity_id

abbrev by_timer : TimerState → String
by_timer t = t.timer_id

-- No pending activity or timer changes, and the run stays open.
pub record SamePending (s u : MutableState) : Type 0 where
  pub activities : u.activities ≡ s.activities
  pub activity_ids : u.activity_ids ≡ s.activity_ids
  pub timers : u.timers ≡ s.timers
  pub timer_ids : u.timer_ids ≡ s.timer_ids
  pub still_open : is_terminal_status u.status ≡ false

pub IsBody-mono :
    (n : ℕ) (s u : MutableState)
    → IsBody n s
    → SamePending s u
    → IsTask (suc n) u.workflow_task
    → IsBody (suc n) u
IsBody-mono n s u b same task = record {
  activities =
      rw (same.activities, same.activity_ids)
        (IsIndex-mono by_activity n s.activities s.activity_ids b.activities);
  timers = rw (same.timers, same.timer_ids) (IsIndex-mono by_timer n s.timers s.timer_ids b.timers);
  each_activity = λ id a h. ground (arith, same.activities, b.each_activity id a);
  each_timer = λ id a h. ground (arith, same.timers, b.each_timer id a);
  task = task;
  closed = λ h. cc same.still_open;
}

pub close-IsBody :
    (n : ℕ) (s : MutableState) (status : WorkflowStatus) (time : Time)
    → IsBody (suc n) (close s status time)
unfolding close
close-IsBody n s status time = record {
  activities = IsIndex-empty by_activity (suc n);
  timers = IsIndex-empty by_timer (suc n);
  each_activity = λ id a h. cc (GoMap.get-empty {V = ActivityState} id);
  each_timer = λ id a h. cc (GoMap.get-empty {V = TimerState} id);
  task = omega arith;
  closed = λ h. (refl, refl, refl);
}

module _ (n : ℕ) (s : MutableState) (b : IsBody n s)
    (open_ : is_terminal_status s.status ≡ false) where
  same-IsBody : IsBody (suc n) s
  same-IsBody =
      IsBody-mono n s s b
        (record {
          activities = refl;
          activity_ids = refl;
          timers = refl;
          timer_ids = refl;
          still_open = open_;
        })
        (ground (arith, b.task))

  -- Pending activities changed, all else as it was.
  activities-IsBody :
      (table : GoMap ℕ ActivityState) (ids : GoMap String ℕ)
      → IsIndex (suc n) by_activity table ids
      → ((id : ℕ) (a : ActivityState) → GoMap.get table id ≡ some a → IsActivity (suc n) id a)
      → IsBody (suc n) (record s { activities = table; activity_ids = ids })
  activities-IsBody table ids x each = record {
    activities = x;
    timers = same-IsBody.timers;
    each_activity = each;
    each_timer = same-IsBody.each_timer;
    task = same-IsBody.task;
    closed = λ h. cc;
  }

  timers-IsBody :
      (table : GoMap ℕ TimerState) (ids : GoMap String ℕ)
      → IsIndex (suc n) by_timer table ids
      → ((id : ℕ) (t : TimerState) → GoMap.get table id ≡ some t → t.started_event_id ≡ id)
      → IsBody (suc n) (record s { timers = table; timer_ids = ids })
  timers-IsBody table ids x each = record {
    activities = same-IsBody.activities;
    timers = x;
    each_activity = same-IsBody.each_activity;
    each_timer = each;
    task = same-IsBody.task;
    closed = λ h. cc;
  }

  pub scheduled-IsBody :
      (time : Time) (a : ActivityTaskScheduled) (u : MutableState)
      → apply_activity_scheduled s (suc n) time a ≡ ok u
      → IsBody (suc n) u
  unfolding apply_activity_scheduled scheduled_activity
  scheduled-IsBody time a u h = elim (Option-cases (GoMap.get s.activity_ids a.activity_id)) [
    | inl e ↦ subst (IsBody (suc n)) (ground arith) (
        activities-IsBody _ _
          (IsIndex-insert by_activity n s.activities s.activity_ids
            (scheduled_activity (suc n) time a) b.activities e)
          (λ id w k. ground (
            arith,
            GoMap.get-put s.activities (suc n) id (scheduled_activity (suc n) time a),
            b.each_activity id w,
          )))
    | inr (prev, e) ↦ absurd (ground arith)
  ]

  -- A pending activity rewritten under its own id and name.
  rewritten-IsBody :
      (id : ℕ) (act act' : ActivityState)
      → GoMap.get s.activities id ≡ some act
      → act'.activity_id ≡ act.activity_id
      → act'.scheduled_event_id ≡ act.scheduled_event_id
      → act'.started_event_id ≤ suc n
      → IsBody (suc n) (record s { activities = GoMap.put s.activities id act' })
  rewritten-IsBody id act act' e same from started =
      activities-IsBody _ _
        (IsIndex-replace by_activity (suc n) id s.activities s.activity_ids act act'
          same-IsBody.activities e same)
        (λ j w k. ground (
          arith,
          GoMap.get-put s.activities id j act',
          b.each_activity j w,
          b.each_activity id act,
        ))

  pub started-IsBody :
      (time : Time) (a : ActivityTaskStarted) (u : MutableState)
      → apply_activity_started s (suc n) time a ≡ ok u
      → IsBody (suc n) u
  unfolding apply_activity_started
  started-IsBody time a u h = elim (Option-cases (GoMap.get s.activities a.scheduled_event_id)) [
    | inl e ↦ absurd (ground arith)
    | inr (act, e) ↦ subst (IsBody (suc n)) (ground arith) (
        rewritten-IsBody a.scheduled_event_id act (started_activity (suc n) time a act) e refl refl
          (ground arith))
  ]

  pub request_activity_cancel-IsBody :
      (id : ℕ) (u : MutableState) → request_activity_cancel s id ≡ ok u → IsBody (suc n) u
  unfolding request_activity_cancel
  request_activity_cancel-IsBody id u h = elim (Option-cases (GoMap.get s.activities id)) [
    | inl e ↦ absurd (ground arith)
    | inr (act, e) ↦ subst (IsBody (suc n)) (ground arith) (
        rewritten-IsBody id act (record act { cancel_requested = true }) e refl refl
          (ground (arith, b.each_activity id act)))
  ]

  pub close_activity-IsBody :
      (id : ℕ) (u : MutableState) → close_activity s id ≡ ok u → IsBody (suc n) u
  unfolding close_activity
  close_activity-IsBody id u h = elim (Option-cases (GoMap.get s.activities id)) [
    | inl e ↦ absurd (ground arith)
    | inr (act, e) ↦ subst (IsBody (suc n)) (ground arith) (
        activities-IsBody _ _
          (IsIndex-remove by_activity (suc n) id s.activities s.activity_ids act
            same-IsBody.activities e)
          (λ j w k. ground (arith, GoMap.get-delete s.activities id j, b.each_activity j w)))
  ]

  pub timer_started-IsBody :
      (time : Time) (a : TimerStarted) (u : MutableState)
      → apply_timer_started s (suc n) time a ≡ ok u
      → IsBody (suc n) u
  unfolding apply_timer_started
  timer_started-IsBody time a u h =
      let t : TimerState = record {
        started_event_id = suc n;
        timer_id = a.timer_id;
        fire_at = time +ℤ a.start_to_fire_timeout;
      } in
      elim (Option-cases (GoMap.get s.timer_ids a.timer_id)) [
        | inl e ↦ subst (IsBody (suc n)) (ground arith) (
            timers-IsBody _ _ (IsIndex-insert by_timer n s.timers s.timer_ids t b.timers e)
              (λ id w k. ground (arith, GoMap.get-put s.timers (suc n) id t, b.each_timer id w)))
        | inr (prev, e) ↦ absurd (ground arith)
      ]

  pub close_timer-IsBody : (id : ℕ) (u : MutableState) → close_timer s id ≡ ok u → IsBody (suc n) u
  unfolding close_timer
  close_timer-IsBody id u h = elim (Option-cases (GoMap.get s.timers id)) [
    | inl e ↦ absurd (ground arith)
    | inr (t, e) ↦ subst (IsBody (suc n)) (ground arith) (
        timers-IsBody _ _
          (IsIndex-remove by_timer (suc n) id s.timers s.timer_ids t same-IsBody.timers e)
          (λ j w k. ground (arith, GoMap.get-delete s.timers id j, b.each_timer j w)))
  ]
