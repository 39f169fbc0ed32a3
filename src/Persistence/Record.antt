-- ===== src/Persistence/Record.antt =====
-- The types of internal/persistence/store.go. `none` for a map is Go's nil map.
use skald.Prelude.{
  ℕ, ◌≡◌, ◌↔◌, refl, String, string_eq, Bool, true, not, Option, some, List, ◌==◌, ◌&&◌, Eq, nat_eq,
  arith, ap, if◌then◌else◌,
}
use text.Mathlib.TextEquality.{eq_iff}
use skald.Prelude.Int.{ℤ}
use skald.Prelude.GoMap.{GoMap}
use skald.Values.Status.{WorkflowStatus, is_terminal_status}
use skald.History.Event.{History, Time}

pub record ExecutionRecord : Type 0 where
  pub namespace : String
  pub workflow_id : String
  pub run_id : String
  pub workflow_type : String
  pub task_queue : String
  pub status : WorkflowStatus
  pub started_at : Time
  pub closed_at : Time
  pub version : ℕ
  pub last_event_id : ℕ
  pub first_execution_run_id : String
  pub memo : Option (GoMap String String)
  pub search_attrs : Option (GoMap String String)

-- ExecutionRecord.Open
abbrev pub is_open : ExecutionRecord → Bool
is_open r = not (is_terminal_status r.status)

pub data IdReusePolicy : Type 0 where
  allow_duplicate allow_duplicate_failed_only reject_duplicate terminate_if_running : IdReusePolicy

pub data TimerKind : Type 0 where
  user activity_retry activity_timeout workflow_task_timeout execution_timeout workflow_retry :
      TimerKind

pub record TimerKey : Type 0 where
  pub namespace : String
  pub workflow_id : String
  pub run_id : String
  pub event_id : ℕ
  pub kind : TimerKind

pub record TimerRecord : Type 0 where
  pub key : TimerKey
  pub fire_at : Time
  pub attempt : ℤ
  pub task_queue : String

pub record CreateExecutionRequest : Type 0 where
  pub rec : ExecutionRecord
  pub events : History
  pub timers : List TimerRecord
  pub request_id : String
  pub reuse_policy : IdReusePolicy

pub record AppendHistoryRequest : Type 0 where
  pub namespace : String
  pub workflow_id : String
  pub run_id : String
  pub expected_version : ℕ
  pub events : History
  pub rec : ExecutionRecord
  pub upsert_timers : List TimerRecord
  pub delete_timers : List TimerKey
  pub create_successor : Option CreateExecutionRequest

-- The value of the constant, an int32.
abbrev pub kind_number : TimerKind → ℕ
kind_number user = 0
kind_number activity_retry = 1
kind_number activity_timeout = 2
kind_number workflow_task_timeout = 3
kind_number execution_timeout = 4
kind_number workflow_retry = 5

abbrev kind_of : ℕ → Option TimerKind
kind_of n =
    if n == 0
    then some user
    else if n == 1
    then some activity_retry
    else if n == 2
    then some activity_timeout
    else if n == 3
    then some workflow_task_timeout
    else if n == 4
    then some execution_timeout
    else some workflow_retry

kind_of-kind_number : (k : TimerKind) → kind_of (kind_number k) ≡ some k
kind_of-kind_number user = refl
kind_of-kind_number activity_retry = refl
kind_of-kind_number activity_timeout = refl
kind_of-kind_number workflow_task_timeout = refl
kind_of-kind_number execution_timeout = refl
kind_of-kind_number workflow_retry = refl

abbrev timer_key_beq : TimerKey → TimerKey → Bool
timer_key_beq a b =
    a.namespace == b.namespace
    && (a.workflow_id == b.workflow_id
        && (a.run_id == b.run_id
            && (a.event_id == b.event_id && kind_number a.kind == kind_number b.kind)))

kind_number_injective : (a b : TimerKind) → kind_number a ≡ kind_number b → a ≡ b
kind_number_injective a b h = cc (kind_of-kind_number a, kind_of-kind_number b, ap kind_of h)

pub timer_key_beq_iff : (a b : TimerKey) → (timer_key_beq a b ≡ true) ↔ (a ≡ b)
timer_key_beq_iff a b = ground (
  arith,
  eq_iff a.namespace b.namespace,
  eq_iff a.workflow_id b.workflow_id,
  eq_iff a.run_id b.run_id,
  kind_number_injective a.kind b.kind,
)

instance abbrev pub timer_key_eq : Eq TimerKey
timer_key_eq = record { beq = timer_key_beq; beq_iff = timer_key_beq_iff }
