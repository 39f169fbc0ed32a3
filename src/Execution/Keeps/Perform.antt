-- ===== src/Execution/Keeps/Perform.antt =====
-- The recorded operations of internal/execution and the properties that appends and clock readings
-- keep.
use skald.Prelude.{◌≡◌, true, List, [], ◌∷◌, All}
use skald.Values.Float.{Floats}
use skald.History.Attributes.{Attributes}
use skald.Execution.State.{MutableState}
use skald.Execution.Append.{read_now, append_event}
use skald.Execution.Operation.{
  Operation, perform, perform_each, is_recorded, start, schedule_workflow_task,
  timeout_workflow_task, start_workflow_task, complete_workflow_task, fail_workflow_task,
  start_activity, complete_activity, cancel_activity, fail_activity, timeout_activity,
  record_activity_heartbeat, fire_timer, signal, request_cancel, terminate, timeout_execution,
}
use skald.Execution.Keeps.{Keeps}
use skald.Execution.Keeps.Operations
use skald.Execution.Keeps.Batch

module _ (P : MutableState → Type 0) (append : (attrs : Attributes) → Keeps P (append_event attrs))
    (clock : Keeps P read_now) (F : Floats) where
  pub perform-recorded :
      (op : Operation) (s : MutableState) → is_recorded op ≡ true → P s → P (perform F op s)
  unfolding perform
  perform-recorded (start a) s r h = (Operations.start-Keeps P append clock a).at s h
  perform-recorded schedule_workflow_task s r h =
      (Operations.schedule_workflow_task-Keeps P append clock).at s h
  perform-recorded timeout_workflow_task s r h =
      (Operations.timeout_workflow_task-Keeps P append clock).at s h
  perform-recorded (start_workflow_task i q) s r h =
      (Operations.start_workflow_task-Keeps P append clock i q).at s h
  perform-recorded (complete_workflow_task i n v cs) s r h =
      (Batch.complete_workflow_task-Keeps P append clock F i n v cs).at s h
  perform-recorded (fail_workflow_task c f i) s r h =
      (Operations.fail_workflow_task-Keeps P append clock c f i).at s h
  perform-recorded (start_activity id i q) s r h =
      (Operations.start_activity-Keeps P append clock F id i q).at s h
  perform-recorded (complete_activity id p i) s r h =
      (Operations.complete_activity-Keeps P append clock id p i).at s h
  perform-recorded (cancel_activity id d i) s r h =
      (Operations.cancel_activity-Keeps P append clock id d i).at s h
  perform-recorded (fail_activity id f i) s r h = cc
  perform-recorded (timeout_activity id k) s r h = cc
  perform-recorded (record_activity_heartbeat id d) s r h = cc
  perform-recorded (fire_timer id) s r h = (Operations.fire_timer-Keeps P append clock id).at s h
  perform-recorded (signal n p i) s r h = (Operations.signal-Keeps P append clock n p i).at s h
  perform-recorded (request_cancel q i) s r h =
      (Operations.request_cancel-Keeps P append clock q i).at s h
  perform-recorded (terminate q d i) s r h =
      (Operations.terminate-Keeps P append clock q d i).at s h
  perform-recorded (timeout_execution k) s r h =
      (Operations.timeout_execution-Keeps P append clock k).at s h

  pub perform_each-recorded :
      (ops : List Operation) (s : MutableState)
      → All (λ op. is_recorded op ≡ true) ops
      → P s
      → P (perform_each F ops s)
  unfolding perform_each
  perform_each-recorded [] s r h = h
  perform_each-recorded (op ∷ ops) s r h =
      perform_each-recorded ops (perform F op s) r.1 (perform-recorded op s r.0 h)
