-- ===== src/Execution/Activity.antt =====
-- The activity operations of internal/execution/activity.go. A write through the pointer that
-- `ms.activities` holds is a `put` of the changed record under the same key.
use skald.Prelude.{
  ℕ, ◌*◌, String, Bool, not, Option, none, some, List, [], ◌∷◌, ◌==◌, ◌&&◌, nat_eq, string_eq,
  if◌then◌else◌,
}
use Prim.Native.String.{◌++◌}
use skald.Prelude.Int.{ℤ, pos, ◌+ℤ◌, ltb_ℤ, leb_ℤ, beq_ℤ, inc_int32, wrap_int64}
use skald.Prelude.GoMap
use skald.Values.Payload.{Payload}
use skald.Values.Status.{RetryState}
use skald.Values.Errors.{
  ApplicationError, application_error, no_cause, TimeoutKind, timeout_name, timeout_message,
  is_schedule_to_close,
}
use skald.Values.Float.{Float64, Floats}
use skald.Values.Retry.{RetryPolicy, should_retry_failure}
use skald.History.Attributes.{
  Attributes, activity_task_started, activity_task_completed, activity_task_failed,
  activity_task_timed_out, activity_task_canceled,
}
use skald.History.Event.{Event, Duration, get_event}
use skald.Execution.Random.{jitter_from_seed}
use skald.Execution.State.{
  ActivityState, MutableState, Exec, is_started, zero_time, activity_not_pending,
  activity_already_started, activity_never_started,
}
use skald.Execution.Append.{
  pure, found, lift, gets, ◌>>=◌, ◌>>◌, refuse_when, modify, read_now, append_event,
}
use skald.Execution.Effect.{Effect, timer_effect}
use skald.Execution.Transitions.{wake_workflow}

-- `act, ok := ms.activities[id]` with the error for `!ok`.
unfoldable pub pending_activity : ℕ → Exec ActivityState
pending_activity id = do act ← gets (λ s. GoMap.get s.activities id); found activity_not_pending act

abbrev pub set_activity : ℕ → ActivityState → MutableState → MutableState
set_activity id act s = record s { activities = GoMap.put s.activities id act }

jitter_seed_of : Attributes → Float64 → Float64
jitter_seed_of (activity_task_started a) z = a.retry_jitter_seed
jitter_seed_of _ z = z

-- RecordActivityHeartbeat
unfoldable pub record_activity_heartbeat : ℕ → Option Payload → Exec Bool
record_activity_heartbeat id details = do
  act ← pending_activity id
  refuse_when (not (is_started act)) activity_never_started
  deadline ←
      (if ltb_ℤ (pos 0) act.heartbeat_timeout
        then (read_now >>= λ now. pure (now +ℤ act.heartbeat_timeout))
        else pure act.heartbeat_deadline)
  modify (
      set_activity id
        (record act { last_heartbeat_details = details; heartbeat_deadline = deadline }))
  pure act.cancel_requested

-- CompleteActivity
unfoldable pub complete_activity : ℕ → Option Payload → String → Exec (List Effect)
complete_activity id result identity = do
  act ← pending_activity id
  refuse_when (not (is_started act)) activity_never_started
  _ ← append_event (
      activity_task_completed (record {
        scheduled_event_id = id;
        started_event_id = act.started_event_id;
        result = result;
        identity = identity;
      }))
  wake_workflow

-- CancelActivity
unfoldable pub cancel_activity : ℕ → Option Payload → String → Exec (List Effect)
cancel_activity id details identity = do
  act ← pending_activity id
  _ ← append_event (
      activity_task_canceled (record {
        scheduled_event_id = id;
        started_event_id = act.started_event_id;
        details = details;
        identity = identity;
      }))
  wake_workflow

-- retryActivity
unfoldable pub retry_activity :
    ℕ → ActivityState → Option ApplicationError → Duration → Exec (List Effect)
retry_activity id act failure delay = do
  modify (
      set_activity id (record act {
        attempt = inc_int32 act.attempt;
        started_event_id = 0;
        started_at = zero_time;
        attempt_deadline = zero_time;
        heartbeat_deadline = zero_time;
        request_id = "";
        last_failure = failure;
      }))
  now ← read_now
  pure (timer_effect act.task_queue act.scheduled_event_id (now +ℤ delay) ∷ [])

-- The ApplicationError that TimeoutActivity hands to the policy.
unfoldable pub timeout_failure : TimeoutKind → Option Payload → ApplicationError
timeout_failure kind details =
    application_error ("TimeoutError:" ++ timeout_name kind)
      (timeout_message (record { kind = kind; last_heartbeat_details = details }))
      (is_schedule_to_close kind) none no_cause ""

module _ (F : Floats) where
  -- startedJitter
  unfoldable pub started_jitter : MutableState → ℕ → Float64
  unfolding jitter_seed_of
  started_jitter s started_event_id = elim (get_event s.events started_event_id) [
    | none ↦ F.of_int (pos 0)
    | some ev ↦ jitter_seed_of ev.attrs (F.of_int (pos 0))
  ]

  -- A poll that was retried: the started event again, if the request is the same one.
  unfoldable pub start_again : ActivityState → String → Exec Event
  start_again act request_id = do
    prev ← gets (λ s. get_event s.events act.started_event_id)
    ev ← found activity_already_started prev
    refuse_when (not (act.request_id == request_id)) activity_already_started
    pure ev

  -- StartActivity
  unfoldable pub start_activity : ℕ → String → String → Exec Event
  start_activity id identity request_id = do
    act ← pending_activity id
    seed ← gets (λ s. s.randomness_seed)
    (if is_started act
        then start_again act request_id
        else append_event (
            activity_task_started (record {
              scheduled_event_id = id;
              identity = identity;
              request_id = request_id;
              attempt = act.attempt;
              last_failure = if ltb_ℤ (pos 1) act.attempt then act.last_failure else none;
              retry_jitter_seed =
                  jitter_from_seed F seed (wrap_int64 (pos (id * 1_000_003) +ℤ act.attempt));
            })))

  unfoldable pub within_deadline : ActivityState → Option Duration → Exec (Option Duration)
  within_deadline act none = pure none
  within_deadline act (some delay) =
      if beq_ℤ act.schedule_to_close_deadline (pos 0)
      then pure (some delay)
      else (read_now >>= λ now.
          pure (if ltb_ℤ act.schedule_to_close_deadline (now +ℤ delay) then none else some delay))

  -- ShouldRetry, then the test against the schedule-to-close deadline, which reads the clock.
  unfoldable pub decide_retry : ActivityState → Option ApplicationError → Exec (Option Duration)
  decide_retry act failure = do
    jitter ← gets (λ s. started_jitter s act.started_event_id)
    retry ← lift (should_retry_failure F act.retry_policy act.attempt failure jitter)
    within_deadline act retry

  abbrev final_state : Option RetryPolicy → ℤ → RetryState
  final_state none attempt = RetryState.non_retryable_failure
  final_state (some p) attempt =
      if ltb_ℤ (pos 0) p.maximum_attempts && leb_ℤ p.maximum_attempts attempt
      then RetryState.maximum_attempts_reached
      else RetryState.non_retryable_failure

  -- The end of FailActivity and of TimeoutActivity: another attempt, or the terminal event.
  unfoldable pub retry_or_write :
      ℕ
      → ActivityState
      → Option ApplicationError
      → Attributes
      → Option Duration
      → Exec (List Effect)
  retry_or_write id act failure attrs (some delay) = retry_activity id act failure delay
  retry_or_write id act failure attrs none = append_event attrs >>= λ _. wake_workflow

  -- FailActivity
  unfoldable pub fail_activity : ℕ → Option ApplicationError → String → Exec (List Effect)
  unfolding retry_or_write
  fail_activity id failure identity = do
    act ← pending_activity id
    refuse_when (not (is_started act)) activity_never_started
    retry ← decide_retry act failure
    retry_or_write id act failure
        (activity_task_failed (record {
          scheduled_event_id = id;
          started_event_id = act.started_event_id;
          failure = failure;
          retry_state = final_state act.retry_policy act.attempt;
          identity = identity;
        }))
        retry

  -- TimeoutActivity
  unfoldable pub timeout_activity : ℕ → TimeoutKind → Exec (List Effect)
  unfolding retry_or_write
  timeout_activity id kind = do
    act ← pending_activity id
    let failure = timeout_failure kind act.last_heartbeat_details
    retry ← decide_retry act (some failure)
    retry_or_write id act (some failure)
        (activity_task_timed_out (record {
          scheduled_event_id = id;
          started_event_id = act.started_event_id;
          kind = kind;
          retry_state = RetryState.timeout;
          last_heartbeat_details = act.last_heartbeat_details;
        }))
        retry
