-- ===== src/Persistence/Store.antt =====
-- The state of internal/persistence/memory/memory.go and its helpers on keys, records and timers.
-- `B` is the type of an event's encoding. The heap of due timers is its map from keys to timers.
use skald.Prelude.{
  ◌≡◌, ◌↔◌, String, string_eq, Bool, true, false, Option, none, some, List, [], ◌∷◌, ◌==◌, ◌&&◌, Eq,
  if◌then◌else◌, string_lt, arith,
}
use text.Mathlib.TextEquality.{eq_iff}
use skald.Prelude.Int.{ltb_ℤ}
use skald.Prelude.GoMap
use skald.Prelude.GoMap.{GoMap}
use skald.History.Event.{Time}
use skald.History.Validate.{Invalid}
use skald.Persistence.Record.{ExecutionRecord, TimerRecord, TimerKey, timer_key_eq}

pub record RunKey : Type 0 where
  pub namespace : String
  pub workflow_id : String
  pub run_id : String

pub record WorkflowKey : Type 0 where
  pub namespace : String
  pub workflow_id : String

pub record DedupKey : Type 0 where
  pub namespace : String
  pub workflow_id : String
  pub request_id : String

abbrev run_key_beq : RunKey → RunKey → Bool
run_key_beq a b =
    a.namespace == b.namespace && (a.workflow_id == b.workflow_id && a.run_id == b.run_id)

abbrev workflow_key_beq : WorkflowKey → WorkflowKey → Bool
workflow_key_beq a b = a.namespace == b.namespace && a.workflow_id == b.workflow_id

abbrev dedup_key_beq : DedupKey → DedupKey → Bool
dedup_key_beq a b =
    a.namespace == b.namespace && (a.workflow_id == b.workflow_id && a.request_id == b.request_id)

pub run_key_beq_iff : (a b : RunKey) → (run_key_beq a b ≡ true) ↔ (a ≡ b)
run_key_beq_iff a b = ground (
  arith,
  eq_iff a.namespace b.namespace,
  eq_iff a.workflow_id b.workflow_id,
  eq_iff a.run_id b.run_id,
)

pub workflow_key_beq_iff : (a b : WorkflowKey) → (workflow_key_beq a b ≡ true) ↔ (a ≡ b)
workflow_key_beq_iff a b =
    ground (arith, eq_iff a.namespace b.namespace, eq_iff a.workflow_id b.workflow_id)

pub dedup_key_beq_iff : (a b : DedupKey) → (dedup_key_beq a b ≡ true) ↔ (a ≡ b)
dedup_key_beq_iff a b = ground (
  arith,
  eq_iff a.namespace b.namespace,
  eq_iff a.workflow_id b.workflow_id,
  eq_iff a.request_id b.request_id,
)

instance abbrev pub run_key_eq : Eq RunKey
run_key_eq = record { beq = run_key_beq; beq_iff = run_key_beq_iff }

instance abbrev pub workflow_key_eq : Eq WorkflowKey
workflow_key_eq = record { beq = workflow_key_beq; beq_iff = workflow_key_beq_iff }

instance abbrev pub dedup_key_eq : Eq DedupKey
dedup_key_eq = record { beq = dedup_key_beq; beq_iff = dedup_key_beq_iff }

-- One stored execution, its events encoded.
pub record Run (B : Type 0) : Type 0 where
  pub rec : ExecutionRecord
  pub events : List B
  pub last_event : Time

pub record Store (B : Type 0) : Type 0 where
  pub closed : Bool
  pub runs : GoMap RunKey (Run B)
  pub current : GoMap WorkflowKey RunKey
  pub dedup : GoMap DedupKey RunKey
  pub timers : GoMap TimerKey TimerRecord
  pub timers_by_id : GoMap RunKey (GoMap TimerKey (Unit {0}))

abbrev pub new_store : {B : Type 0} → Store B
new_store = record {
  closed = false;
  runs = GoMap.empty;
  current = GoMap.empty;
  dedup = GoMap.empty;
  timers = GoMap.empty;
  timers_by_id = GoMap.empty;
}

-- What a call of the store fails with.
pub data StoreError : Type 0 where
  not_found version_conflict already_started store_closed : StoreError
  invalid_identifier no_events wrong_first_event closed_run : StoreError
  gap nil_attrs no_time time_goes_back not_a_continuation encode_failed decode_failed : StoreError
  invalid_history : Invalid → StoreError

abbrev pub key_of : ExecutionRecord → RunKey
key_of r = record { namespace = r.namespace; workflow_id = r.workflow_id; run_id = r.run_id }

abbrev pub workflow_of : ExecutionRecord → WorkflowKey
workflow_of r = record { namespace = r.namespace; workflow_id = r.workflow_id }

abbrev pub dedup_of : ExecutionRecord → String → DedupKey
dedup_of r request_id = record {
  namespace = r.namespace;
  workflow_id = r.workflow_id;
  request_id = request_id;
}

-- cloneAttrs: an empty map becomes nil.
abbrev pub clone_attrs : Option (GoMap String String) → Option (GoMap String String)
clone_attrs none = none
clone_attrs (some m) = if GoMap.is_empty m then none else some m

-- cloneRecord, and normalizeRecord, which also writes times in UTC.
abbrev pub clone_record : ExecutionRecord → ExecutionRecord
clone_record r = record r { memo = clone_attrs r.memo; search_attrs = clone_attrs r.search_attrs }

-- newer, by byRecency: the later start, and for equal starts the greater run id.
unfoldable pub newer : ExecutionRecord → ExecutionRecord → Bool
newer a b =
    if ltb_ℤ b.started_at a.started_at
    then true
    else if ltb_ℤ a.started_at b.started_at
    then false
    else string_lt b.run_id a.run_id

abbrev without_timer :
    RunKey
    → GoMap TimerKey (Unit {0})
    → GoMap RunKey (GoMap TimerKey (Unit {0}))
    → GoMap RunKey (GoMap TimerKey (Unit {0}))
without_timer key rest sets =
    if GoMap.is_empty rest then GoMap.delete sets key else GoMap.put sets key rest

module _ {B : Type 0} where
  abbrev pub timer_set : RunKey → Store B → GoMap TimerKey (Unit {0})
  timer_set key s = elim (GoMap.get s.timers_by_id key) [ none ↦ GoMap.empty | some set ↦ set ]

  -- upsertTimer
  unfoldable pub upsert_timer : RunKey → TimerRecord → Store B → Store B
  upsert_timer key tr s = record s {
    timers = GoMap.put s.timers tr.key tr;
    timers_by_id = GoMap.put s.timers_by_id key (GoMap.put (timer_set key s) tr.key tt);
  }

  -- deleteTimer
  unfoldable pub delete_timer : RunKey → TimerKey → Store B → Store B
  delete_timer key tk s = record s {
    timers = GoMap.delete s.timers tk;
    timers_by_id = elim (GoMap.get s.timers_by_id key) [
      | none ↦ s.timers_by_id
      | some set ↦ without_timer key (GoMap.delete set tk) s.timers_by_id
    ];
  }

  -- dropRunTimers
  unfoldable pub drop_run_timers : RunKey → Store B → Store B
  drop_run_timers key s = record s {
    timers = GoMap.delete_all (timer_set key s) s.timers;
    timers_by_id = GoMap.delete s.timers_by_id key;
  }

  unfoldable pub upsert_timers : RunKey → List TimerRecord → Store B → Store B
  upsert_timers key [] s = s
  upsert_timers key (tr ∷ trs) s = upsert_timers key trs (upsert_timer key tr s)

  unfoldable pub delete_timers_of : RunKey → List TimerKey → Store B → Store B
  delete_timers_of key [] s = s
  delete_timers_of key (tk ∷ tks) s = delete_timers_of key tks (delete_timer key tk s)
