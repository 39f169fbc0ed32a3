-- ===== src/Execution/Effect.antt =====
-- The types Effect and NewRunRequest of internal/execution/transitions.go.
use skald.Prelude.{ℕ, String, Option, none}
use skald.Prelude.Int.{pos}
use skald.History.Attributes.{WorkflowExecutionStarted}
use skald.History.Event.{Time, Duration}

pub data EffectKind : Type 0 where
  dispatch_workflow_task dispatch_activity_task arm_timer start_new_run : EffectKind

pub record NewRunRequest : Type 0 where
  pub workflow_id : String
  pub attributes : WorkflowExecutionStarted
  pub delay : Duration

pub record Effect : Type 0 where
  pub kind : EffectKind
  pub task_queue : String
  pub scheduled_event_id : ℕ
  pub fire_at : Time
  pub new_run : Option NewRunRequest

-- The literals of the source, which leave the other fields at their zero values.
abbrev pub dispatch_effect : EffectKind → String → ℕ → Effect
dispatch_effect kind queue id = record {
  kind = kind;
  task_queue = queue;
  scheduled_event_id = id;
  fire_at = pos 0;
  new_run = none;
}

abbrev pub timer_effect : String → ℕ → Time → Effect
timer_effect queue id at = record {
  kind = arm_timer;
  task_queue = queue;
  scheduled_event_id = id;
  fire_at = at;
  new_run = none;
}
