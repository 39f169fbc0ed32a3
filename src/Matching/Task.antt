-- ===== src/Matching/Task.antt =====
-- Kind, QueueKey, Task and Stats of internal/matching/matching.go.
use skald.Prelude.{ℕ, ◌≡◌, ◌↔◌, String, Bool, true, false, ◌==◌, ◌&&◌, Eq, string_eq, arith}
use text.Mathlib.TextEquality.{eq_iff}
use skald.Prelude.Int.{ℤ}
use skald.Values.Payload.{WorkflowExecution}
use skald.History.Event.{Time}

pub data Kind : Type 0 where
  kind_workflow kind_activity : Kind

pub record QueueKey : Type 0 where
  pub namespace : String
  pub task_queue : String
  pub kind : Kind

abbrev kind_beq : Kind → Kind → Bool
kind_beq kind_workflow kind_workflow = true
kind_beq kind_activity kind_activity = true
kind_beq _ _ = false

abbrev key_beq : QueueKey → QueueKey → Bool
key_beq a b = a.namespace == b.namespace && (a.task_queue == b.task_queue && kind_beq a.kind b.kind)

kind_beq_iff : (a b : Kind) → (kind_beq a b ≡ true) ↔ (a ≡ b)
kind_beq_iff kind_workflow kind_workflow = ground arith
kind_beq_iff kind_workflow kind_activity = ground arith
kind_beq_iff kind_activity kind_workflow = ground arith
kind_beq_iff kind_activity kind_activity = ground arith

pub key_beq_iff : (a b : QueueKey) → (key_beq a b ≡ true) ↔ (a ≡ b)
key_beq_iff a b = ground (
  arith,
  eq_iff a.namespace b.namespace,
  eq_iff a.task_queue b.task_queue,
  kind_beq_iff a.kind b.kind,
)

instance abbrev pub key_eq : Eq QueueKey
key_eq = record { beq_iff = key_beq_iff; beq = key_beq }

pub record Task : Type 0 where
  pub namespace : String
  pub task_queue : String
  pub execution : WorkflowExecution
  pub scheduled_event_id : ℕ
  pub attempt : ℤ
  pub enqueued_at : Time

pub record Stats : Type 0 where
  pub backlog : ℕ
  pub pollers : ℕ
  pub sync_matches : ℕ
  pub async_matches : ℕ
  pub dropped : ℕ
  pub poll_timeouts : ℕ
