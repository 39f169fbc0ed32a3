-- ===== src/Execution/Operation.antt =====
-- The calls that advance a run: one constructor for each method of MutableState that the engine
-- calls to change it, with its arguments, other than PatchContinuedAsNewRunID, which rewrites the
-- last event of a run that is closed.
use skald.Prelude.{ℕ, String, Bool, true, false, Option, List, [], ◌∷◌}
use skald.Values.Payload.{Payload}
use skald.Values.Status.{WorkflowTaskFailedCause}
use skald.Values.Errors.{ApplicationError, TimeoutKind}
use skald.Values.Float.{Floats}
use skald.History.Attributes.{WorkflowExecutionStarted}
use skald.History.Command.{Command}
use skald.Execution.State.{MutableState}
use skald.Execution.Transitions
use skald.Execution.Complete
use skald.Execution.Activity

pub data Operation : Type 0 where
  start : WorkflowExecutionStarted → Operation
  schedule_workflow_task timeout_workflow_task : Operation
  start_workflow_task : String → String → Operation
  complete_workflow_task : String → String → String → List Command → Operation
  fail_workflow_task : WorkflowTaskFailedCause → Option ApplicationError → String → Operation
  start_activity : ℕ → String → String → Operation
  complete_activity cancel_activity : ℕ → Option Payload → String → Operation
  fail_activity : ℕ → Option ApplicationError → String → Operation
  timeout_activity : ℕ → TimeoutKind → Operation
  record_activity_heartbeat : ℕ → Option Payload → Operation
  fire_timer : ℕ → Operation
  signal : String → Option Payload → String → Operation
  request_cancel : String → String → Operation
  terminate : String → Option Payload → String → Operation
  timeout_execution : TimeoutKind → Operation

-- The state that a call leaves, whatever it returned.
unfoldable pub perform : Floats → Operation → MutableState → MutableState
perform F (start attrs) s = (Transitions.start attrs s).1
perform F schedule_workflow_task s = (Transitions.schedule_workflow_task s).1
perform F timeout_workflow_task s = (Transitions.timeout_workflow_task s).1
perform F (start_workflow_task i r) s = (Transitions.start_workflow_task i r s).1
perform F (complete_workflow_task i n v cs) s = (Complete.complete_workflow_task F i n v cs s).1
perform F (fail_workflow_task c f i) s = (Transitions.fail_workflow_task c f i s).1
perform F (start_activity id i r) s = (Activity.start_activity F id i r s).1
perform F (complete_activity id r i) s = (Activity.complete_activity id r i s).1
perform F (cancel_activity id d i) s = (Activity.cancel_activity id d i s).1
perform F (fail_activity id f i) s = (Activity.fail_activity F id f i s).1
perform F (timeout_activity id k) s = (Activity.timeout_activity F id k s).1
perform F (record_activity_heartbeat id d) s = (Activity.record_activity_heartbeat id d s).1
perform F (fire_timer id) s = (Transitions.fire_timer id s).1
perform F (signal n p i) s = (Transitions.signal n p i s).1
perform F (request_cancel r i) s = (Transitions.request_cancel r i s).1
perform F (terminate r d i) s = (Transitions.terminate r d i s).1
perform F (timeout_execution k) s = (Transitions.timeout_execution k s).1

unfoldable pub perform_each : Floats → List Operation → MutableState → MutableState
perform_each F [] s = s
perform_each F (op ∷ ops) s = perform_each F ops (perform F op s)

-- The calls that change the state through events alone.
abbrev pub is_recorded : Operation → Bool
is_recorded (fail_activity id f i) = false
is_recorded (timeout_activity id k) = false
is_recorded (record_activity_heartbeat id d) = false
is_recorded _ = true
