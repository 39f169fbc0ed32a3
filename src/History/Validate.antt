-- ===== src/History/Validate.antt =====
-- History.Validate and History.validateReferences of pkg/history/history.go.
use skald.Prelude.{
  ℕ, suc, ◌+◌, Bool, true, false, not, Option, none, some, [], ◌∷◌, ltb, leb, ◌==◌, ◌&&◌, ◌||◌,
  nat_eq, string_eq, length, Outcome, ok, ◌>>=◌, ◌>>◌, refuse_if,
}
use skald.Prelude.Int.{pos, ltb_ℤ, beq_ℤ}
use skald.Prelude.GoMap
use skald.Prelude.GoMap.{GoMap}
use skald.History.EventType.{is_known, is_terminal}
use skald.History.Attributes.{
  Attributes, no_attributes, type_of, workflow_execution_started, workflow_execution_completed,
  workflow_execution_failed, workflow_execution_canceled, workflow_execution_continued_as_new,
  workflow_execution_signaled, workflow_task_scheduled, workflow_task_started,
  workflow_task_completed, workflow_task_failed, workflow_task_timed_out, activity_task_scheduled,
  activity_task_started, activity_task_completed, activity_task_failed, activity_task_timed_out,
  activity_task_cancel_requested, activity_task_canceled, timer_started, timer_fired,
  timer_canceled, marker_recorded,
}
use skald.History.Event.{Event, History, Time}

abbrev pub max_history_events : ℕ
max_history_events = 50_000

-- One constructor for each message of `invalid`; the texts are left out.
pub data Invalid : Type 0 where
  too_many_events first_not_started id_not_dense nil_attributes unknown_type zero_timestamp :
      Invalid
  time_backwards second_started terminal_not_last : Invalid
  no_producing_task not_an_earlier_event not_a_valid_reference : Invalid
  empty_activity_id empty_timer_id negative_duration empty_marker_name no_failure_detail : Invalid
  no_successor_run no_workflow_type no_task_queue no_signal_name : Invalid

-- The sets that Validate passes along, and the time of the last event.
pub record Refs : Type 0 where
  pub prev_time : Time
  pub scheduled_workflow_tasks : GoMap ℕ Bool
  pub started_workflow_tasks : GoMap ℕ Bool
  pub completed_workflow_tasks : GoMap ℕ Bool
  pub scheduled_activities : GoMap ℕ Bool
  pub started_activities : GoMap ℕ Bool
  pub started_timers : GoMap ℕ Bool

abbrev pub no_refs : Refs
no_refs = record {
  prev_time = pos 0;
  scheduled_workflow_tasks = GoMap.empty;
  started_workflow_tasks = GoMap.empty;
  completed_workflow_tasks = GoMap.empty;
  scheduled_activities = GoMap.empty;
  started_activities = GoMap.empty;
  started_timers = GoMap.empty;
}

-- set[id], which is false for an absent key.
abbrev pub member : GoMap ℕ Bool → ℕ → Bool
member set id = elim (GoMap.get set id) [ none ↦ false | some b ↦ b ]

-- The closures ref and cmdRef.
unfoldable pub ref : ℕ → ℕ → GoMap ℕ Bool → Outcome Invalid (Unit {0})
ref ev_id id set = do
  refuse_if (id == 0 || leb ev_id id) not_an_earlier_event
  refuse_if (not (member set id)) not_a_valid_reference

unfoldable pub cmd_ref : ℕ → ℕ → GoMap ℕ Bool → Outcome Invalid (Unit {0})
unfolding ref
cmd_ref ev_id id set = do refuse_if (id == 0) no_producing_task; ref ev_id id set

abbrev is_nil {ℓ} : {A : Type ℓ} → Option A → Bool
is_nil none = true
is_nil (some a) = false

unfoldable pub validate_references : ℕ → Attributes → Refs → Outcome Invalid Refs
unfolding ref cmd_ref
validate_references id (workflow_task_scheduled a) r =
    ok (record r { scheduled_workflow_tasks = GoMap.put r.scheduled_workflow_tasks id true })
validate_references id (workflow_task_started a) r = do
  ref id a.scheduled_event_id r.scheduled_workflow_tasks
  ok (record r { started_workflow_tasks = GoMap.put r.started_workflow_tasks id true })
validate_references id (workflow_task_completed a) r = do
  ref id a.started_event_id r.started_workflow_tasks
  ok (record r { completed_workflow_tasks = GoMap.put r.completed_workflow_tasks id true })
validate_references id (workflow_task_failed a) r = do
  ref id a.started_event_id r.started_workflow_tasks
  ok r
validate_references id (workflow_task_timed_out a) r = do
  ref id a.started_event_id r.started_workflow_tasks
  ok r
validate_references id (activity_task_scheduled a) r = do
  cmd_ref id a.workflow_task_completed_event_id r.completed_workflow_tasks
  refuse_if (a.activity_id == "") empty_activity_id
  ok (record r { scheduled_activities = GoMap.put r.scheduled_activities id true })
validate_references id (activity_task_started a) r = do
  ref id a.scheduled_event_id r.scheduled_activities
  ok (record r { started_activities = GoMap.put r.started_activities id true })
validate_references id (activity_task_completed a) r = do
  ref id a.scheduled_event_id r.scheduled_activities
  ref id a.started_event_id r.started_activities
  ok r
validate_references id (activity_task_failed a) r = do
  ref id a.scheduled_event_id r.scheduled_activities
  refuse_if (is_nil a.failure) no_failure_detail
  ok r
validate_references id (activity_task_timed_out a) r = do
  ref id a.scheduled_event_id r.scheduled_activities
  ok r
validate_references id (activity_task_cancel_requested a) r = do
  cmd_ref id a.workflow_task_completed_event_id r.completed_workflow_tasks
  ref id a.scheduled_event_id r.scheduled_activities
  ok r
validate_references id (activity_task_canceled a) r = do
  ref id a.scheduled_event_id r.scheduled_activities
  ok r
validate_references id (timer_started a) r = do
  cmd_ref id a.workflow_task_completed_event_id r.completed_workflow_tasks
  refuse_if (a.timer_id == "") empty_timer_id
  refuse_if (ltb_ℤ a.start_to_fire_timeout (pos 0)) negative_duration
  ok (record r { started_timers = GoMap.put r.started_timers id true })
validate_references id (timer_fired a) r = do ref id a.started_event_id r.started_timers; ok r
validate_references id (timer_canceled a) r = do
  cmd_ref id a.workflow_task_completed_event_id r.completed_workflow_tasks
  ref id a.started_event_id r.started_timers
  ok r
validate_references id (marker_recorded a) r = do
  cmd_ref id a.workflow_task_completed_event_id r.completed_workflow_tasks
  refuse_if (a.marker_name == "") empty_marker_name
  ok r
validate_references id (workflow_execution_completed a) r = do
  cmd_ref id a.workflow_task_completed_event_id r.completed_workflow_tasks
  ok r
validate_references id (workflow_execution_failed a) r = do
  cmd_ref id a.workflow_task_completed_event_id r.completed_workflow_tasks
  refuse_if (is_nil a.failure) no_failure_detail
  ok r
validate_references id (workflow_execution_canceled a) r = do
  cmd_ref id a.workflow_task_completed_event_id r.completed_workflow_tasks
  ok r
validate_references id (workflow_execution_continued_as_new a) r = do
  cmd_ref id a.workflow_task_completed_event_id r.completed_workflow_tasks
  refuse_if (a.new_run_id == "") no_successor_run
  ok r
validate_references id (workflow_execution_started a) r = do
  refuse_if (a.workflow_type == "") no_workflow_type
  refuse_if (a.task_queue == "") no_task_queue
  ok r
validate_references id (workflow_execution_signaled a) r = do
  refuse_if (a.signal_name == "") no_signal_name
  ok r
validate_references id _ r = ok r

abbrev pub is_started : Attributes → Bool
is_started (workflow_execution_started a) = true
is_started _ = false

abbrev pub is_nil_attrs : Attributes → Bool
is_nil_attrs no_attributes = true
is_nil_attrs _ = false

-- One round of the loop of Validate, at index `i` of a history of `n` events.
unfoldable pub check_event : ℕ → ℕ → Event → Refs → Outcome Invalid Refs
check_event n i ev r = do
  refuse_if (not (ev.id == i + 1)) id_not_dense
  refuse_if (is_nil_attrs ev.attrs) nil_attributes
  refuse_if (not (is_known (type_of ev.attrs))) unknown_type
  refuse_if (beq_ℤ ev.time (pos 0)) zero_timestamp
  refuse_if (ltb_ℤ ev.time r.prev_time) time_backwards
  refuse_if (ltb 0 i && is_started ev.attrs) second_started
  refuse_if (is_terminal (type_of ev.attrs) && not (i + 1 == n)) terminal_not_last
  validate_references ev.id ev.attrs (record r { prev_time = ev.time })

unfoldable pub check_events : ℕ → ℕ → History → Refs → Outcome Invalid Refs
check_events n i [] r = ok r
check_events n i (ev ∷ es) r = check_event n i ev r >>= check_events n (suc i) es

-- History.Validate
unfoldable pub validate : History → Outcome Invalid (Unit {0})
validate [] = ok tt
validate (ev ∷ es) = do
  refuse_if (ltb max_history_events (length (ev ∷ es))) too_many_events
  refuse_if (not (is_started ev.attrs)) first_not_started
  _ ← check_events (length (ev ∷ es)) 0 (ev ∷ es) no_refs
  ok tt
