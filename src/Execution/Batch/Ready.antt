-- ===== src/Execution/Batch/Ready.antt =====
-- The relation between the state before a batch, what precheckCommands of
-- internal/execution/transitions.go has seen of the batch, and the state so far.
use skald.Prelude.{
  among, ℕ, ◌≡◌, String, true, false, List, ◌∷◌, nat_eq, string_eq, ok, arith, Option-cases, inl,
  inr,
}
use skald.Prelude.GoMap
use skald.Values.Status.{is_terminal_status}
use skald.History.Attributes.{
  ActivityTaskScheduled, TimerStarted, TimerCanceled, ActivityTaskCancelRequested, MarkerRecorded,
  activity_task_scheduled, activity_task_cancel_requested, marker_recorded, timer_started,
  timer_canceled,
}
use skald.Prelude.Int.{◌+ℤ◌}
use skald.History.Event.{Time}
use skald.Execution.State.{MutableState, TimerState}
use skald.Execution.Apply.{apply, scheduled_activity}
use skald.Execution.Append.{append_event, stamped}
use skald.Execution.Commands.{Seen, has}

-- `s` is the state before the batch, `seen` what precheckCommands has seen of it, `canceled` the
-- timers that it has canceled, `t` the state after the commands so far.
pub record Ready (s : MutableState) (seen : Seen) (canceled : List ℕ) (t : MutableState)
    : Type 0 where
  pub is_open : is_terminal_status t.status ≡ false
  pub free_activity :
      (k : String)
      → has (GoMap.get s.activity_ids) k ≡ false
      → has (GoMap.get seen.activity_ids) k ≡ false
      → has (GoMap.get t.activity_ids) k ≡ false
  pub free_timer :
      (k : String)
      → has (GoMap.get s.timer_ids) k ≡ false
      → has (GoMap.get seen.timer_ids) k ≡ false
      → has (GoMap.get t.timer_ids) k ≡ false
  pub timer_left :
      (id : ℕ)
      → has (GoMap.get s.timers) id ≡ true
      → among id canceled ≡ false
      → has (GoMap.get t.timers) id ≡ true
  pub activity_left :
      (id : ℕ) → has (GoMap.get s.activities) id ≡ true → has (GoMap.get t.activities) id ≡ true

abbrev started_timer : ℕ → Time → TimerStarted → TimerState
started_timer id time a = record {
  started_event_id = id;
  timer_id = a.timer_id;
  fire_at = time +ℤ a.start_to_fire_timeout;
}

abbrev pub see_activity : String → Seen → Seen
see_activity k seen = record seen { activity_ids = GoMap.put seen.activity_ids k tt }

abbrev pub see_timer : String → Seen → Seen
see_timer k seen = record seen { timer_ids = GoMap.put seen.timer_ids k tt }

module _ (s t : MutableState) (seen : Seen) (canceled : List ℕ) (r : Ready s seen canceled t) where
  -- A scheduled activity, a started and a canceled timer, as AppendEvent writes them.
  pub append_activity-Ready :
      (a : ActivityTaskScheduled)
      → has (GoMap.get s.activity_ids) a.activity_id ≡ false
      → has (GoMap.get seen.activity_ids) a.activity_id ≡ false
      → let (x, u) = append_event (activity_task_scheduled a) t in
        (x ≡ ok (stamped (activity_task_scheduled a) t))
        × Ready s (see_activity a.activity_id seen) canceled u
  unfolding append_event apply
  append_activity-Ready a p q =
      let e = r.free_activity a.activity_id p q in
      let n = stamped (activity_task_scheduled a) t in
      (
        ground (arith, r.is_open),
        record {
          is_open = ground (arith, r.is_open);
          free_activity = λ k x y. ground (
            arith,
            r.is_open,
            GoMap.get-put seen.activity_ids a.activity_id k tt,
            GoMap.get-put t.activity_ids a.activity_id k n.id,
            r.free_activity k,
          );
          free_timer = λ k x y. ground (arith, r.is_open, r.free_timer k);
          timer_left = λ id x y. ground (arith, r.is_open, r.timer_left id);
          activity_left = λ id x. ground (
            arith,
            r.is_open,
            r.activity_left id,
            GoMap.get-put t.activities n.id id (scheduled_activity n.id n.time a),
          );
        },
      )

  pub append_timer-Ready :
      (a : TimerStarted)
      → has (GoMap.get s.timer_ids) a.timer_id ≡ false
      → has (GoMap.get seen.timer_ids) a.timer_id ≡ false
      → let (x, u) = append_event (timer_started a) t in
        let n = stamped (timer_started a) t in
        (x ≡ ok n)
        × Ready s (see_timer a.timer_id seen) canceled u
        × (has (GoMap.get u.timers) n.id ≡ true)
  unfolding append_event apply
  append_timer-Ready a p q =
      let e = r.free_timer a.timer_id p q in
      let n = stamped (timer_started a) t in
      let new = started_timer n.id n.time a in
      (
        ground (arith, r.is_open),
        record {
          is_open = ground (arith, r.is_open);
          free_activity = λ k x y. ground (arith, r.is_open, r.free_activity k);
          free_timer = λ k x y. ground (
            arith,
            r.is_open,
            GoMap.get-put seen.timer_ids a.timer_id k tt,
            GoMap.get-put t.timer_ids a.timer_id k n.id,
            r.free_timer k,
          );
          timer_left = λ id x y.
              ground (arith, r.is_open, r.timer_left id, GoMap.get-put t.timers n.id id new);
          activity_left = λ id x. ground (arith, r.is_open, r.activity_left id);
        },
        ground (arith, r.is_open, GoMap.get-put_self t.timers n.id new),
      )

  pub append_cancel-Ready :
      (a : TimerCanceled)
      → has (GoMap.get t.timers) a.started_event_id ≡ true
      → let (x, u) = append_event (timer_canceled a) t in
        (x ≡ ok (stamped (timer_canceled a) t)) × Ready s seen (a.started_event_id ∷ canceled) u
  unfolding append_event apply
  append_cancel-Ready a p = elim (Option-cases (GoMap.get t.timers a.started_event_id)) [
    | inl e ↦ absurd (ground arith)
    | inr (old, e) ↦ (
      ground (arith, r.is_open),
      record {
        is_open = ground (arith, r.is_open);
        free_activity = λ k x y. ground (arith, r.is_open, r.free_activity k);
        free_timer = λ k x y.
            ground (arith, r.is_open, GoMap.get-delete t.timer_ids old.timer_id k, r.free_timer k);
        timer_left = λ id x y.
            ground
              (arith, r.is_open, r.timer_left id, GoMap.get-delete t.timers a.started_event_id id);
        activity_left = λ id x. ground (arith, r.is_open, r.activity_left id);
      },
    )
  ]

  pub append_request-Ready :
      (a : ActivityTaskCancelRequested)
      → has (GoMap.get t.activities) a.scheduled_event_id ≡ true
      → let (x, u) = append_event (activity_task_cancel_requested a) t in
        (x ≡ ok (stamped (activity_task_cancel_requested a) t)) × Ready s seen canceled u
  unfolding append_event apply
  append_request-Ready a p = elim (Option-cases (GoMap.get t.activities a.scheduled_event_id)) [
    | inl e ↦ absurd (ground arith)
    | inr (old, e) ↦ (
      ground (arith, r.is_open),
      record {
        is_open = ground (arith, r.is_open);
        free_activity = λ k x y. ground (arith, r.is_open, r.free_activity k);
        free_timer = λ k x y. ground (arith, r.is_open, r.free_timer k);
        timer_left = λ id x y. ground (arith, r.is_open, r.timer_left id);
        activity_left = λ id x. ground (
          arith,
          r.is_open,
          r.activity_left id,
          GoMap.get-put t.activities a.scheduled_event_id id
              (record old { cancel_requested = true }),
        );
      },
    )
  ]

  pub append_marker-Ready :
      (a : MarkerRecorded)
      → let (x, u) = append_event (marker_recorded a) t in
        (x ≡ ok (stamped (marker_recorded a) t)) × Ready s seen canceled u
  unfolding append_event apply
  append_marker-Ready a = (
    ground (arith, r.is_open),
    record {
      is_open = ground (arith, r.is_open);
      free_activity = λ k x y. ground (arith, r.is_open, r.free_activity k);
      free_timer = λ k x y. ground (arith, r.is_open, r.free_timer k);
      timer_left = λ id x y. ground (arith, r.is_open, r.timer_left id);
      activity_left = λ id x. ground (arith, r.is_open, r.activity_left id);
    },
  )
