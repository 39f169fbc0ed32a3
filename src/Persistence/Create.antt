-- ===== src/Persistence/Create.antt =====
-- CreateExecution of internal/persistence/memory/memory.go. The encoding of an event is the argument
-- `encode`, since encoding/json is not part of the program.
use skald.Prelude.{
  ℕ, ◌+◌, String, string_eq, Bool, true, false, not, Option, none, some, List, [], ◌∷◌, ◌++◌, ◌==◌,
  ◌&&◌, ◌||◌, if◌then◌else◌, Outcome, ok, err, panic, ◌>>=◌, ◌>>◌,
}
use skald.Prelude.Int.{pos, ltb_ℤ}
use skald.Prelude.GoMap
use skald.Values.Status.{WorkflowStatus, completed, continued_as_new, terminated}
use skald.History.Attributes.{
  Attributes, WorkflowExecutionTerminated, workflow_execution_terminated,
}
use skald.History.Event.{Event, History, Time}
use skald.Persistence.Record.{
  ExecutionRecord, is_open, IdReusePolicy, allow_duplicate, allow_duplicate_failed_only,
  reject_duplicate, terminate_if_running, TimerRecord, CreateExecutionRequest,
}
use skald.Persistence.Store.{
  Run, Store, RunKey, run_key_eq, WorkflowKey, workflow_key_eq, dedup_key_eq, StoreError,
  already_started, store_closed, encode_failed, key_of, workflow_of, dedup_of, clone_record, newer,
  drop_run_timers, upsert_timers,
}
use skald.Persistence.Plan.{CreatePlan, Result, is_stored, original, apply_create}
use skald.Persistence.Checks.{validate_create, validate_timers, last_time}
pub mod Applied
pub mod Retried
pub mod Plans
pub mod Skewed

abbrev pub later_of : Time → Time → Time
later_of at last = if ltb_ℤ at last then last else at

abbrev is_success : WorkflowStatus → Bool
is_success completed = true
is_success continued_as_new = true
is_success _ = false

abbrev about_to_close : Option RunKey → RunKey → Bool
about_to_close none cur = false
about_to_close (some k) cur = k == cur

module _ {B : Type 0} where
  abbrev pub refuse_taken : Bool → Store B → Result B (Option ExecutionRecord)
  refuse_taken true s = (err already_started, s)
  refuse_taken false s = (ok none, s)

  abbrev pub resolved : CreatePlan B → Result B (Option ExecutionRecord) → Result B ExecutionRecord
  resolved p (ok (some rec), s) = (ok rec, s)
  resolved p (ok none, s) = apply_create p s
  resolved p (err e, s) = (err e, s)
  resolved p (panic, s) = (panic, s)

module _ {B : Type 0} (encode : Event → Option B) where
  -- encodeEvents
  unfoldable pub encode_events : History → Outcome StoreError (List B)
  encode_events [] = ok []
  encode_events (ev ∷ evs) = elim (encode ev) [
    | none ↦ err encode_failed
    | some b ↦ encode_events evs >>= λ bs. ok (b ∷ bs)
  ]

  -- planCreate
  unfoldable pub plan_create : CreateExecutionRequest → Outcome StoreError (CreatePlan B)
  plan_create req = do
    rec ← validate_create req
    blobs ← encode_events req.events
    validate_timers (key_of rec) req.timers
    ok record {
      rec = rec;
      blobs = blobs;
      timers = req.timers;
      last_event = last_time req.events;
      request_id = req.request_id;
      reuse = req.reuse_policy;
    }

  abbrev termination : Run B → Time → Event
  termination r at = record {
    id = r.rec.last_event_id + 1;
    time = later_of at r.last_event;
    attrs = workflow_execution_terminated record {
      reason = "terminated to start a new run under the terminate-if-running id reuse policy";
      details = none;
      identity = "skald-store";
    };
  }

  abbrev terminated_run : Run B → B → Time → Run B
  terminated_run r blob at = record {
    rec = record r.rec {
      last_event_id = r.rec.last_event_id + 1;
      status = terminated;
      closed_at = later_of at r.last_event;
      version = r.rec.version + 1;
    };
    events = r.events ++ blob ∷ [];
    last_event = later_of at r.last_event;
  }

  -- terminate, of the run stored under `cur`.
  unfoldable pub terminate_run : RunKey → Run B → Time → Store B → Result B (Unit {0})
  terminate_run cur r at s = elim (encode (termination r at)) [
    | none ↦ (err encode_failed, s)
    | some blob ↦ (
      ok tt,
      drop_run_timers (key_of r.rec)
          (record s { runs = GoMap.put s.runs cur (terminated_run r blob at) }),
    )
  ]

  abbrev pub go_on : Result B (Unit {0}) → Result B (Option ExecutionRecord)
  go_on (ok u, s) = (ok none, s)
  go_on (err e, s) = (err e, s)
  go_on (panic, s) = (panic, s)

  -- The switch of resolveCreateLocked: `cur` is the current run, and `was_open` is prevOpen.
  abbrev pub by_policy :
      IdReusePolicy → Bool → RunKey → Run B → Time → Store B → Result B (Option ExecutionRecord)
  by_policy reject_duplicate was_open cur prev at s = (err already_started, s)
  by_policy allow_duplicate_failed_only was_open cur prev at s =
      refuse_taken (was_open || is_success prev.rec.status) s
  by_policy terminate_if_running true cur prev at s = go_on (terminate_run cur prev at s)
  by_policy terminate_if_running false cur prev at s = (ok none, s)
  by_policy allow_duplicate was_open cur prev at s = refuse_taken was_open s

  -- The current run that is not stored is a nil pointer.
  abbrev pub with_prev :
      CreatePlan B
      → Option RunKey
      → RunKey
      → Option (Run B)
      → Store B
      → Result B (Option ExecutionRecord)
  with_prev p closing cur none s = (panic, s)
  with_prev p closing cur (some prev) s =
      by_policy p.reuse (is_open prev.rec && not (about_to_close closing cur)) cur prev
        p.rec.started_at s

  -- The rest of resolveCreateLocked, for a run id that is new.
  abbrev pub with_current :
      CreatePlan B → Option RunKey → Option RunKey → Store B → Result B (Option ExecutionRecord)
  with_current p closing none s = (ok none, s)
  with_current p closing (some cur) s = with_prev p closing cur (GoMap.get s.runs cur) s

  abbrev pub with_new_run :
      CreatePlan B → Option RunKey → Store B → Result B (Option ExecutionRecord)
  with_new_run p closing s =
      if is_stored (key_of p.rec) s
      then (err already_started, s)
      else with_current p closing (GoMap.get s.current (workflow_of p.rec)) s

  abbrev pub unless_original :
      CreatePlan B → Option RunKey → Store B → Option (Run B) → Result B (Option ExecutionRecord)
  unless_original p closing s none = with_new_run p closing s
  unless_original p closing s (some r) = (ok (some (clone_record r.rec)), s)

  -- resolveCreateLocked
  unfoldable pub resolve_create :
      CreatePlan B → Option RunKey → Store B → Result B (Option ExecutionRecord)
  resolve_create p closing s = unless_original p closing s (original p s)

  abbrev pub planned : Outcome StoreError (CreatePlan B) → Store B → Result B ExecutionRecord
  planned (ok p) s =
      if s.closed then (err store_closed, s) else resolved p (resolve_create p none s)
  planned (err e) s = (err e, s)
  planned panic s = (panic, s)

  -- CreateExecution, on a live context and with no injected fault.
  unfoldable pub create_execution : CreateExecutionRequest → Store B → Result B ExecutionRecord
  create_execution req s = planned (plan_create req) s
