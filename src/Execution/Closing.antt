-- ===== src/Execution/Closing.antt =====
-- The closing commands of internal/execution/transitions.go that may start a successor run:
-- continueAsNew and failExecution.
use skald.Prelude.{
  ℕ, String, Bool, true, Option, none, some, List, [], ◌∷◌, ◌==◌, ◌&&◌, nat_eq, string_eq,
  if◌then◌else◌,
}
use skald.Prelude.Int.{ℤ, pos, ◌+ℤ◌, ltb_ℤ, leb_ℤ, beq_ℤ, inc_int32}
use skald.Values.Payload.{Payload}
use skald.Values.Status.{RetryState}
use skald.Values.Errors.{ApplicationError}
use skald.Values.Float.{Floats}
use skald.Values.Retry.{RetryPolicy, should_retry_failure}
use skald.History.Attributes.{
  WorkflowExecutionStarted, workflow_execution_failed, workflow_execution_continued_as_new,
}
use skald.History.Event.{Duration, started_attributes}
use skald.History.Command.{ContinueAsNewCommand}
use skald.Execution.Random.{jitter_from_seed, next_seed}
use skald.Execution.State.{MutableState, Exec, zero_time}
use skald.Execution.Append.{pure, lift, gets, ◌>>=◌, read_now, append_event}
use skald.Execution.Effect.{Effect, NewRunRequest, start_new_run}

-- successorAttributes; with no started event the durations and the input are zero values.
unfoldable pub successor_attributes : MutableState → Option Payload → ℤ → WorkflowExecutionStarted
successor_attributes s input attempt =
    let started = started_attributes s.events in
    let of_started : (WorkflowExecutionStarted → ℤ) → ℤ =
      λ f. elim started [ none ↦ pos 0 | some a ↦ f a ] in
    record {
      workflow_type = s.workflow_type;
      task_queue = s.task_queue;
      input = elim input [
        | some p ↦ some p
        | none ↦ elim started [ none ↦ none | some a ↦ a.input ]
      ];
      run_timeout = of_started (λ a. a.run_timeout);
      execution_timeout = of_started (λ a. a.execution_timeout);
      task_timeout = of_started (λ a. a.task_timeout);
      retry_policy = s.retry_policy;
      attempt = attempt;
      continued_execution_run_id = s.execution.run_id;
      first_execution_run_id = s.first_execution_run_id;
      randomness_seed = next_seed s.randomness_seed;
      memo = s.memo;
      search_attrs = s.search_attrs;
      identity = "";
      cron_schedule = s.cron_schedule;
    }

abbrev pub new_run_effect : NewRunRequest → Effect
new_run_effect req = record {
  kind = start_new_run;
  task_queue = "";
  scheduled_event_id = 0;
  fire_at = zero_time;
  new_run = some req;
}

abbrev pub or_default : String → String → String
or_default s d = if s == "" then d else s

abbrev pub pending_run_id_placeholder : String
pending_run_id_placeholder = "<pending>"

-- continueAsNew
unfoldable pub continue_as_new : ContinueAsNewCommand → ℕ → Exec (List Effect)
continue_as_new c completed_id = do
  s ← gets (λ s. s)
  let attrs = record (successor_attributes s c.input (pos 1)) {
    workflow_type = or_default c.workflow_type s.workflow_type;
    task_queue = or_default c.task_queue s.task_queue;
    run_timeout = c.run_timeout;
    task_timeout = c.task_timeout;
    retry_policy = elim c.retry_policy [ none ↦ s.retry_policy | some p ↦ some p ];
  }
  _ ← append_event (
      workflow_execution_continued_as_new (record {
        new_run_id = pending_run_id_placeholder;
        workflow_type = attrs.workflow_type;
        task_queue = attrs.task_queue;
        input = c.input;
        run_timeout = c.run_timeout;
        task_timeout = c.task_timeout;
        retry_policy = attrs.retry_policy;
        workflow_task_completed_event_id = completed_id;
      }))
  pure (
      new_run_effect
        (record { workflow_id = s.execution.workflow_id; attributes = attrs; delay = pos 0 })
      ∷ [])

module _ (F : Floats) where
  -- The `switch` of failExecution after a policy allowed a retry: the clock is read only if the
  -- execution has a deadline.
  unfoldable pub retry_in_budget : Duration → Exec Bool
  retry_in_budget delay = do
    s ← gets (λ s. s)
    (if beq_ℤ s.execution_deadline (pos 0)
        then pure true
        else (read_now >>= λ now. pure (ltb_ℤ (now +ℤ delay) s.execution_deadline)))

  abbrev attempts_exhausted : RetryPolicy → ℤ → Bool
  attempts_exhausted p attempt =
      ltb_ℤ (pos 0) p.maximum_attempts && leb_ℤ p.maximum_attempts attempt

  unfoldable pub retry_decision : RetryPolicy → Option Duration → Exec (RetryState × List Effect)
  retry_decision p (some delay) = do
    s ← gets (λ s. s)
    in_budget ← retry_in_budget delay
    pure (
        if in_budget
        then (
          RetryState.in_progress,
          new_run_effect (record {
            workflow_id = s.execution.workflow_id;
            attributes = successor_attributes s none (inc_int32 s.attempt);
            delay = delay;
          })
              ∷ [],
        )
        else (RetryState.timeout, []))
  retry_decision p none = do
    attempt ← gets (λ s. s.attempt)
    pure (
        if attempts_exhausted p attempt
        then (RetryState.maximum_attempts_reached, [])
        else (RetryState.non_retryable_failure, []))

  -- What failExecution decides before it writes the event.
  unfoldable pub decide_retry :
      Option ApplicationError → Option RetryPolicy → Exec (RetryState × List Effect)
  decide_retry failure none = pure (RetryState.retry_policy_not_set, [])
  decide_retry failure (some p) = do
    s ← gets (λ s. s)
    retry ← lift (
        should_retry_failure F (some p) s.attempt failure
          (jitter_from_seed F s.randomness_seed s.attempt))
    retry_decision p retry

  -- failExecution
  unfoldable pub fail_execution : Option ApplicationError → ℕ → Exec (List Effect)
  fail_execution failure completed_id = do
    policy ← gets (λ s. s.retry_policy)
    decision ← decide_retry failure policy
    _ ← append_event (
        workflow_execution_failed (record {
          failure = failure;
          workflow_task_completed_event_id = completed_id;
          retry_state = decision.0;
        }))
    pure decision.1
