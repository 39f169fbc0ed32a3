-- ===== src/Persistence/Plan.antt =====
-- The plan of a create and its application, in internal/persistence/memory/memory.go.
use skald.Prelude.{
  String, string_eq, Bool, true, false, Option, none, some, List, ◌==◌, if◌then◌else◌, Outcome, ok,
  panic,
}
use skald.Prelude.GoMap
use skald.History.Event.{Time}
use skald.Persistence.Record.{ExecutionRecord, IdReusePolicy, TimerRecord}
use skald.Persistence.Store.{
  Run, Store, RunKey, run_key_eq, workflow_key_eq, dedup_key_eq, StoreError, key_of, workflow_of,
  dedup_of, clone_record, newer, upsert_timers,
}

pub record CreatePlan (B : Type 0) : Type 0 where
  pub rec : ExecutionRecord
  pub blobs : List B
  pub timers : List TimerRecord
  pub last_event : Time
  pub request_id : String
  pub reuse : IdReusePolicy

-- A call that fails leaves a store too.
abbrev pub Result : Type 0 → Type 0 → Type 0
Result B A = Outcome StoreError A × Store B

module _ {B : Type 0} where
  abbrev pub is_stored : RunKey → Store B → Bool
  is_stored k s = elim (GoMap.get s.runs k) [ none ↦ false | some r ↦ true ]

  abbrev run_of : Option RunKey → Store B → Option (Run B)
  run_of none s = none
  run_of (some k) s = GoMap.get s.runs k

  -- The original run of a retried start.
  abbrev pub original : CreatePlan B → Store B → Option (Run B)
  original p s =
      if p.request_id == ""
      then none
      else run_of (GoMap.get s.dedup (dedup_of p.rec p.request_id)) s

  abbrev pub make_current : CreatePlan B → Store B → Store B
  make_current p s = record s { current = GoMap.put s.current (workflow_of p.rec) (key_of p.rec) }

  abbrev pub if_newer : CreatePlan B → Bool → Store B → Store B
  if_newer p true s = make_current p s
  if_newer p false s = s

  -- `none` is a nil pointer.
  abbrev pub update_current : CreatePlan B → Store B → Option (Store B)
  update_current p s = elim (GoMap.get s.current (workflow_of p.rec)) [
    | none ↦ some (make_current p s)
    | some cur ↦ elim (GoMap.get s.runs cur) [
      | none ↦ none
      | some r ↦ some (if_newer p (newer p.rec r.rec) s)
    ]
  ]

  abbrev pub remember : CreatePlan B → Store B → Store B
  remember p s =
      if p.request_id == ""
      then s
      else record s { dedup = GoMap.put s.dedup (dedup_of p.rec p.request_id) (key_of p.rec) }

  abbrev pub put_run : CreatePlan B → Store B → Store B
  put_run p s = record s {
    runs =
        GoMap.put s.runs (key_of p.rec)
          (record { rec = p.rec; events = p.blobs; last_event = p.last_event });
  }

  abbrev pub finish_create : CreatePlan B → Store B → Option (Store B) → Result B ExecutionRecord
  finish_create p t none = (panic, t)
  finish_create p t (some s) =
      (ok (clone_record p.rec), upsert_timers (key_of p.rec) p.timers (remember p s))

  -- applyCreateLocked
  unfoldable pub apply_create : CreatePlan B → Store B → Result B ExecutionRecord
  apply_create p s = finish_create p (put_run p s) (update_current p (put_run p s))
