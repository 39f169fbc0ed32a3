-- ===== src/History/Command.antt =====
-- pkg/history/command.go: the commands of a workflow task and the checks before they are applied.
use skald.Prelude.{
  ℕ, ◌+◌, String, Bool, true, false, not, Option, none, some, List, [], ◌∷◌, ◌==◌, ◌&&◌, ◌||◌,
  nat_eq, string_eq, Outcome, ok, err, panic, ◌>>=◌, ◌>>◌, refuse_if,
}
use skald.Prelude.Int.{ℤ, pos, ltb_ℤ, leb_ℤ}
use skald.Values.Payload.{Payload}
use skald.Values.Errors.{ApplicationError}
use skald.Values.Float.{Floats}
use skald.Values.Retry.{RetryPolicy, RetryError, validate_policy}
use skald.Values.Ids.{IdError, validate_type_name}

pub data CommandType : Type 0 where
  unspecified schedule_activity_task request_cancel_activity_task start_timer : CommandType
  cancel_timer complete_workflow_execution fail_workflow_execution : CommandType
  cancel_workflow_execution continue_as_new_workflow record_marker : CommandType

-- CommandType.Closing
abbrev pub is_closing : CommandType → Bool
is_closing complete_workflow_execution = true
is_closing fail_workflow_execution = true
is_closing cancel_workflow_execution = true
is_closing continue_as_new_workflow = true
is_closing _ = false

pub record ScheduleActivityCommand : Type 0 where
  pub activity_id : String
  pub activity_type : String
  pub task_queue : String
  pub input : Option Payload
  pub retry_policy : Option RetryPolicy
  pub schedule_to_close_timeout : ℤ
  pub schedule_to_start_timeout : ℤ
  pub start_to_close_timeout : ℤ
  pub heartbeat_timeout : ℤ

pub record RequestCancelActivityCommand : Type 0 where
  pub scheduled_event_id : ℕ

pub record StartTimerCommand : Type 0 where
  pub timer_id : String
  pub start_to_fire_timeout : ℤ

pub record CancelTimerCommand : Type 0 where
  pub started_event_id : ℕ

pub record CompleteWorkflowCommand : Type 0 where
  pub result : Option Payload

pub record FailWorkflowCommand : Type 0 where
  pub failure : Option ApplicationError

pub record CancelWorkflowCommand : Type 0 where
  pub details : Option Payload

pub record ContinueAsNewCommand : Type 0 where
  pub workflow_type : String
  pub task_queue : String
  pub input : Option Payload
  pub run_timeout : ℤ
  pub task_timeout : ℤ
  pub retry_policy : Option RetryPolicy

pub record RecordMarkerCommand : Type 0 where
  pub marker_name : String
  pub marker_id : String
  pub details : Option Payload
  pub failure : Option ApplicationError

-- A nil sub-struct is `none`.
pub record Command : Type 0 where
  pub command_type : CommandType
  pub schedule_activity : Option ScheduleActivityCommand
  pub request_cancel_activity : Option RequestCancelActivityCommand
  pub start_timer_cmd : Option StartTimerCommand
  pub cancel_timer_cmd : Option CancelTimerCommand
  pub complete_workflow : Option CompleteWorkflowCommand
  pub fail_workflow : Option FailWorkflowCommand
  pub cancel_workflow : Option CancelWorkflowCommand
  pub continue_as_new : Option ContinueAsNewCommand
  pub record_marker_cmd : Option RecordMarkerCommand

pub data CommandError : Type 0 where
  wrong_attribute_count mismatch unknown_command_type closing_not_last : CommandError
  empty_activity_id no_timeout negative_timeout heartbeat_too_long : CommandError
  no_scheduled_event empty_timer_id negative_duration no_started_event : CommandError
  no_failure empty_marker_name : CommandError
  bad_type_name : IdError → CommandError
  bad_retry_policy : RetryError → CommandError

abbrev one_if_set : {A : Type 0} → Option A → ℕ
one_if_set none = 0
one_if_set (some a) = 1

-- The count `set` of Validate.
unfoldable pub attributes_set : Command → ℕ
attributes_set c =
    one_if_set c.schedule_activity
    + one_if_set c.request_cancel_activity
    + one_if_set c.start_timer_cmd
    + one_if_set c.cancel_timer_cmd
    + one_if_set c.complete_workflow
    + one_if_set c.fail_workflow
    + one_if_set c.cancel_workflow
    + one_if_set c.continue_as_new
    + one_if_set c.record_marker_cmd

abbrev present : {A : Type 0} → Option A → Outcome CommandError A
present none = err mismatch
present (some a) = ok a

abbrev is_nil : {A : Type 0} → Option A → Bool
is_nil none = true
is_nil (some a) = false

-- The checks on the timeouts of a scheduled activity. The loop over a map of four durations refuses
-- one that is negative, in whatever order it meets them.
unfoldable pub check_timeouts : ScheduleActivityCommand → Outcome CommandError (Unit {0})
check_timeouts a = do
  refuse_if (leb_ℤ a.schedule_to_close_timeout (pos 0) && leb_ℤ a.start_to_close_timeout (pos 0))
      no_timeout
  refuse_if
      (ltb_ℤ a.schedule_to_close_timeout (pos 0)
        || (ltb_ℤ a.schedule_to_start_timeout (pos 0)
            || (ltb_ℤ a.start_to_close_timeout (pos 0) || ltb_ℤ a.heartbeat_timeout (pos 0))))
      negative_timeout
  refuse_if
      (ltb_ℤ (pos 0) a.heartbeat_timeout
        && (ltb_ℤ (pos 0) a.start_to_close_timeout
            && ltb_ℤ a.start_to_close_timeout a.heartbeat_timeout))
      heartbeat_too_long

unfoldable pub check_type_name : String → Outcome CommandError (Unit {0})
check_type_name n = elim (validate_type_name n) [
  | ok t ↦ ok tt
  | err e ↦ err (bad_type_name e)
  | panic ↦ panic
]

abbrev is_last : List Command → Bool
is_last [] = true
is_last (c ∷ cs) = false

module _ (F : Floats) where
  -- RetryPolicy.Validate inside a command: it normalizes the policy that the command points to.
  unfoldable pub check_policy : Option RetryPolicy → Outcome CommandError (Option RetryPolicy)
  check_policy p = elim (validate_policy F p) [
    | ok q ↦ ok q
    | err e ↦ err (bad_retry_policy e)
    | panic ↦ panic
  ]

  -- The checks on a scheduled activity, and the command with its policy normalized.
  unfoldable pub check_schedule :
      ScheduleActivityCommand → Outcome CommandError ScheduleActivityCommand
  unfolding check_timeouts check_type_name check_policy
  check_schedule a = do
    refuse_if (a.activity_id == "") empty_activity_id
    check_type_name a.activity_type
    check_timeouts a
    p ← check_policy a.retry_policy
    ok (record a { retry_policy = p })

  validate_schedule : Command → Outcome CommandError Command
  validate_schedule c = do
    a ← present c.schedule_activity
    a' ← check_schedule a
    ok (record c { schedule_activity = some a' })

  validate_continue : Command → Outcome CommandError Command
  unfolding check_policy
  validate_continue c = do
    a ← present c.continue_as_new
    p ← check_policy a.retry_policy
    ok (record c { continue_as_new = some (record a { retry_policy = p }) })

  -- The `switch` of Command.Validate.
  unfoldable pub validate_by_type : CommandType → Command → Outcome CommandError Command
  unfolding validate_schedule validate_continue
  validate_by_type unspecified c = err unknown_command_type
  validate_by_type schedule_activity_task c = validate_schedule c
  validate_by_type request_cancel_activity_task c = do
    a ← present c.request_cancel_activity
    refuse_if (a.scheduled_event_id == 0) no_scheduled_event
    ok c
  validate_by_type start_timer c = do
    a ← present c.start_timer_cmd
    refuse_if (a.timer_id == "") empty_timer_id
    refuse_if (ltb_ℤ a.start_to_fire_timeout (pos 0)) negative_duration
    ok c
  validate_by_type cancel_timer c = do
    a ← present c.cancel_timer_cmd
    refuse_if (a.started_event_id == 0) no_started_event
    ok c
  validate_by_type complete_workflow_execution c = do _ ← present c.complete_workflow; ok c
  validate_by_type fail_workflow_execution c = do
    a ← present c.fail_workflow
    refuse_if (is_nil a.failure) no_failure
    ok c
  validate_by_type cancel_workflow_execution c = do _ ← present c.cancel_workflow; ok c
  validate_by_type continue_as_new_workflow c = validate_continue c
  validate_by_type record_marker c = do
    a ← present c.record_marker_cmd
    refuse_if (a.marker_name == "") empty_marker_name
    ok c

  -- Command.Validate: the command with its policy normalized.
  unfoldable pub validate_command : Command → Outcome CommandError Command
  unfolding attributes_set validate_by_type
  validate_command c = do
    refuse_if (not (attributes_set c == 1)) wrong_attribute_count
    validate_by_type c.command_type c

  -- ValidateBatch: the batch with its policies normalized.
  unfoldable pub validate_batch : List Command → Outcome CommandError (List Command)
  validate_batch [] = ok []
  validate_batch (c ∷ cs) =
      let rest = validate_batch cs in
      do
        c' ← validate_command c
        refuse_if (is_closing c.command_type && not (is_last cs)) closing_not_last
        cs' ← rest
        ok (c' ∷ cs')
