-- ===== src/Persistence/Append.antt =====
-- AppendHistory of internal/persistence/memory/memory.go.
use skald.Prelude.{
  ℕ, ◌+◌, String, string_eq, Bool, true, false, not, Option, none, some, List, [], ◌∷◌, ◌++◌, ◌==◌,
  ◌&&◌, nat_eq, if◌then◌else◌, Outcome, ok, err, panic, refuse_if, ◌>>=◌, ◌>>◌,
}
use skald.Prelude.Int.{pos, int_eq}
use skald.Prelude.GoMap
use skald.Prelude.GoMap.{GoMap}
use skald.Values.Status.{is_terminal_status}
use skald.History.Event.{Event, History, Time, last_event_id}
use skald.Persistence.Record.{
  ExecutionRecord, is_open, allow_duplicate, CreateExecutionRequest, AppendHistoryRequest,
}
use skald.Persistence.Store.{
  Run, Store, RunKey, run_key_eq, StoreError, not_found, version_conflict, store_closed,
  not_a_continuation, key_of, clone_attrs, clone_record, upsert_timers, delete_timers_of,
  drop_run_timers,
}
use skald.Persistence.Checks.{validate_append, validate_timers, check_timer_keys, last_time}
use skald.Persistence.Plan.{CreatePlan, Result, apply_create}
use skald.Persistence.Create.{encode_events, plan_create, resolve_create}
use skald.Persistence.Reads.{resolved_key}
pub mod Cases
pub mod Atomic
pub mod Stored
pub mod Versions
pub mod Accepted
pub mod Successor

-- `if src != nil { dst = cloneAttrs(src) }`
abbrev replaced :
    Option (GoMap String String) → Option (GoMap String String) → Option (GoMap String String)
replaced old none = old
replaced old (some new) = clone_attrs (some new)

abbrev closing_time : ExecutionRecord → ExecutionRecord → Time → Time
closing_time dst src last =
    if not (src.closed_at == pos 0)
    then src.closed_at
    else if dst.closed_at == pos 0
    then last
    else dst.closed_at

-- applyMutableFields: what becomes of the record `dst`.
unfoldable pub apply_mutable_fields : ExecutionRecord → ExecutionRecord → Time → ExecutionRecord
apply_mutable_fields dst src last =
    let status = if is_terminal_status dst.status then dst.status else src.status in
    record dst {
      status = status;
      closed_at = if is_terminal_status status then closing_time dst src last else pos 0;
      memo = replaced dst.memo src.memo;
      search_attrs = replaced dst.search_attrs src.search_attrs;
    }

abbrev is_nil_history : History → Bool
is_nil_history [] = true
is_nil_history (e ∷ es) = false

abbrev continued : CreateExecutionRequest → AppendHistoryRequest → Bool
continued sub req = sub.rec.namespace == req.namespace && sub.rec.workflow_id == req.workflow_id

abbrev pub requested : AppendHistoryRequest → RunKey
requested req = record {
  namespace = req.namespace;
  workflow_id = req.workflow_id;
  run_id = req.run_id;
}

module _ {B : Type 0} where
  -- The run after the events and the record of a request are written.
  unfoldable pub appended : Run B → List B → AppendHistoryRequest → Run B
  unfolding apply_mutable_fields
  appended r blobs req =
      let last = if is_nil_history req.events then r.last_event else last_time req.events in
      record {
        events = r.events ++ blobs;
        last_event = last;
        rec =
            apply_mutable_fields
              (record r.rec {
                last_event_id =
                    if is_nil_history req.events
                    then r.rec.last_event_id
                    else last_event_id req.events;
                version = r.rec.version + 1;
              })
              req.rec last;
      }

  abbrev pub drop_if_closed : Bool → RunKey → Store B → Store B
  drop_if_closed true key s = s
  drop_if_closed false key s = drop_run_timers key s

  -- The writes of AppendHistory to the run `r` stored under `key`, the successor's left out.
  unfoldable pub write_append : RunKey → Run B → List B → AppendHistoryRequest → Store B → Store B
  unfolding appended
  write_append key r blobs req s =
      drop_if_closed (is_open (appended r blobs req).rec) (key_of r.rec) (
        upsert_timers (key_of r.rec) req.upsert_timers (
          delete_timers_of (key_of r.rec) req.delete_timers
            (record s { runs = GoMap.put s.runs key (appended r blobs req) })))

  abbrev pub with_result : ExecutionRecord → Result B ExecutionRecord → Result B ExecutionRecord
  with_result rec (ok r, s) = (ok rec, s)
  with_result rec (err e, s) = (err e, s)
  with_result rec (panic, s) = (panic, s)

  abbrev pub create_after :
      Option (CreatePlan B) → Bool → ExecutionRecord → Store B → Result B ExecutionRecord
  create_after none skip rec s = (ok rec, s)
  create_after (some p) true rec s = (ok rec, s)
  create_after (some p) false rec s = with_result rec (apply_create p s)

  -- The checks of AppendHistory on the run that it found.
  unfoldable pub check_append : Run B → AppendHistoryRequest → Outcome StoreError (Unit {0})
  check_append r req = do
    refuse_if (not (r.rec.version == req.expected_version)) version_conflict
    validate_append r req.events
    validate_timers (key_of r.rec) req.upsert_timers
    check_timer_keys (key_of r.rec) req.delete_timers

  abbrev pub with_key : RunKey → Option (Run B) → Outcome StoreError (RunKey × Run B)
  with_key key none = err not_found
  with_key key (some r) = ok (key, r)

  abbrev pub found_run : Option RunKey → Store B → Outcome StoreError (RunKey × Run B)
  found_run none s = err not_found
  found_run (some key) s = with_key key (GoMap.get s.runs key)

  abbrev pub is_there : Result B (Option ExecutionRecord) → Result B Bool
  is_there (ok none, s) = (ok false, s)
  is_there (ok (some r), s) = (ok true, s)
  is_there (err e, s) = (err e, s)
  is_there (panic, s) = (panic, s)

  abbrev pub commit :
      RunKey
      → Run B
      → List B
      → Option (CreatePlan B)
      → AppendHistoryRequest
      → Result B Bool
      → Result B ExecutionRecord
  commit key r blobs successor req (ok skip, s) =
      create_after successor skip (clone_record (appended r blobs req).rec)
        (write_append key r blobs req s)
  commit key r blobs successor req (err e, s) = (err e, s)
  commit key r blobs successor req (panic, s) = (panic, s)

module _ {B : Type 0} (encode : Event → Option B) where
  -- planSuccessor
  unfoldable pub plan_successor : AppendHistoryRequest → Outcome StoreError (Option (CreatePlan B))
  plan_successor req = elim req.create_successor [
    | none ↦ ok none
    | some sub ↦ do
      refuse_if (not (continued sub req)) not_a_continuation
      p ← plan_create encode (record sub { reuse_policy = allow_duplicate })
      ok (some p)
  ]

  -- Whether the successor is there already.
  unfoldable pub resolve_successor : Option (CreatePlan B) → RunKey → Store B → Result B Bool
  resolve_successor none key s = (ok false, s)
  resolve_successor (some p) key s = is_there (resolve_create encode p (some key) s)

  abbrev pub after_check :
      RunKey
      → Run B
      → List B
      → Option (CreatePlan B)
      → AppendHistoryRequest
      → Store B
      → Outcome StoreError (Unit {0})
      → Result B ExecutionRecord
  after_check key r blobs successor req s (ok u) =
      commit key r blobs successor req (resolve_successor successor (key_of r.rec) s)
  after_check key r blobs successor req s (err e) = (err e, s)
  after_check key r blobs successor req s panic = (panic, s)

  -- AppendHistory from its version check on, for the run `r` stored under `key`.
  unfoldable pub append_to :
      RunKey
      → Run B
      → List B
      → Option (CreatePlan B)
      → AppendHistoryRequest
      → Store B
      → Result B ExecutionRecord
  append_to key r blobs successor req s =
      after_check key r blobs successor req s (check_append r req)

  abbrev pub append_found :
      List B
      → Option (CreatePlan B)
      → AppendHistoryRequest
      → Outcome StoreError (RunKey × Run B)
      → Store B
      → Result B ExecutionRecord
  append_found blobs successor req (ok (key, r)) s = append_to key r blobs successor req s
  append_found blobs successor req (err e) s = (err e, s)
  append_found blobs successor req panic s = (panic, s)

  abbrev pub prepared : AppendHistoryRequest → Outcome StoreError (List B × Option (CreatePlan B))
  prepared req = do
    blobs ← encode_events encode req.events
    successor ← plan_successor req
    ok (blobs, successor)

  abbrev pub append_prepared :
      AppendHistoryRequest
      → Outcome StoreError (List B × Option (CreatePlan B))
      → Store B
      → Result B ExecutionRecord
  append_prepared req (ok (blobs, successor)) s =
      if s.closed
      then (err store_closed, s)
      else append_found blobs successor req (found_run (resolved_key (requested req) s) s) s
  append_prepared req (err e) s = (err e, s)
  append_prepared req panic s = (panic, s)

  -- AppendHistory, on a live context and with no injected fault.
  unfoldable pub append_history : AppendHistoryRequest → Store B → Result B ExecutionRecord
  append_history req s = append_prepared req (prepared req) s
