-- ===== src/Persistence/Append/Stored.antt =====
-- What the store holds after AppendHistory committed.
use skald.Prelude.{
  ◌≡◌, ◌≢◌, inl, inr, refl, ap, subst, ◌∙◌, Bool, true, false, Option, none, some, List, ok, err,
  panic, Bool-cases, arith, ◌==◌, string_eq, nat_eq,
}
use skald.Prelude.GoMap
use skald.History.Event.{Event}
use skald.Persistence.Record.{ExecutionRecord, AppendHistoryRequest, is_open}
use skald.Persistence.Store.{Run, Store, RunKey, run_key_eq, workflow_key_eq, clone_record, key_of}
use skald.Persistence.Timers.{
  SameRuns, SameRuns-trans, upsert_timers-SameRuns, delete_timers_of-SameRuns,
  drop_run_timers-SameRuns,
}
use skald.Persistence.Plan.{CreatePlan, Result, apply_create}
use skald.Persistence.Create.{resolve_create}
use skald.Persistence.Create.Applied.{get-apply_create, apply_create-closed}
use skald.Persistence.Append.{
  append_history, create_after, with_result, appended, write_append, drop_if_closed,
  resolve_successor, is_there,
}
use skald.Persistence.Append.Cases.{Committed}

module _ {B : Type 0} where
  drop_if_closed-SameRuns :
      (b : Bool) (key : RunKey) (s : Store B) → SameRuns s (drop_if_closed b key s)
  drop_if_closed-SameRuns true key s = record {
    closed = refl;
    runs = refl;
    current = refl;
    dedup = refl;
  }
  drop_if_closed-SameRuns false key s = drop_run_timers-SameRuns key s

  pub write_append-SameRuns :
      (key : RunKey) (r : Run B) (blobs : List B) (req : AppendHistoryRequest) (s : Store B)
      → SameRuns
          (record s { runs = GoMap.put s.runs key (appended r blobs req) })
          (write_append key r blobs req s)
  unfolding write_append
  write_append-SameRuns key r blobs req s =
      SameRuns-trans (delete_timers_of-SameRuns (key_of r.rec) req.delete_timers _) (
        SameRuns-trans (upsert_timers-SameRuns (key_of r.rec) req.upsert_timers _)
          (drop_if_closed-SameRuns (is_open (appended r blobs req).rec) (key_of r.rec) _))

  pub with_result_store :
      (rec : ExecutionRecord) (r : Result B ExecutionRecord) → (with_result rec r).1 ≡ r.1
  with_result_store rec (ok x, s) = refl
  with_result_store rec (err x, s) = refl
  with_result_store rec (panic, s) = refl

  create_after-closed :
      (o : Option (CreatePlan B)) (skip : Bool) (rec : ExecutionRecord) (s : Store B)
      → (create_after o skip rec s).1.closed ≡ s.closed
  create_after-closed none skip rec s = refl
  create_after-closed (some p) true rec s = refl
  create_after-closed (some p) false rec s =
      ap (λ (u : Store B). u.closed) (with_result_store rec (apply_create p s))
      ∙ apply_create-closed p s

module _ {B : Type 0} (encode : Event → Option B) where
  -- A successor that is not there yet has a run id that is new.
  pub resolve_create-new :
      (p : CreatePlan B) (c : Option RunKey) (s : Store B)
      → (resolve_create encode p c s).0 ≡ ok none
      → GoMap.get s.runs (key_of p.rec) ≡ none
  unfolding resolve_create
  resolve_create-new p c s h = ground arith

  pub is_there-false :
      (r : Result B (Option ExecutionRecord)) → (is_there r).0 ≡ ok false → r.0 ≡ ok none
  is_there-false (ok none, s) h = refl
  is_there-false (ok (some x), s) h = ground arith
  is_there-false (err e, s) h = ground arith
  is_there-false (panic, s) h = ground arith

  get-create_after :
      (o : Option (CreatePlan B)) (skip : Bool) (rec : ExecutionRecord) (key self : RunKey)
      (s t : Store B)
      → (resolve_successor encode o self s).0 ≡ ok skip
      → GoMap.get s.runs key ≢ none
      → GoMap.get (create_after o skip rec t).1.runs key ≡ GoMap.get t.runs key
  unfolding resolve_successor
  get-create_after none skip rec key self s t h n = refl
  get-create_after (some p) true rec key self s t h n = refl
  get-create_after (some p) false rec key self s t h n = elim (Bool-cases (key_of p.rec == key)) [
    | inl e ↦ absurd (
        n (
          subst (λ k. GoMap.get s.runs k ≡ none) ((run_key_eq.beq_iff (key_of p.rec) key).0 e)
            (resolve_create-new p (some self) s (is_there-false _ h))))
    | inr e ↦
        ap (λ u. GoMap.get u.runs key) (with_result_store rec (apply_create p t))
        ∙ get-apply_create p t key e
  ]

  module _ (req : AppendHistoryRequest) (s : Store B) (c : Committed encode req s) where
    -- After a commit the run has the events and the record of the request.
    pub get-append_history :
        GoMap.get (append_history encode req s).1.runs c.key ≡ some (appended c.run c.blobs req)
    get-append_history =
        ap (λ r. GoMap.get r.1.runs c.key) c.result
        ∙ get-create_after c.successor c.skip (clone_record (appended c.run c.blobs req).rec) c.key
            (key_of c.run.rec) s (write_append c.key c.run c.blobs req s) c.skipped
            (λ n. cc (c.found, n))
        ∙ ap (λ m. GoMap.get m c.key) (write_append-SameRuns c.key c.run c.blobs req s).runs
        ∙ GoMap.get-put_self s.runs c.key (appended c.run c.blobs req)

    pub append_history-closed : (append_history encode req s).1.closed ≡ s.closed
    append_history-closed =
        ap (λ r. r.1.closed) c.result
        ∙ create_after-closed c.successor c.skip (clone_record (appended c.run c.blobs req).rec)
            (write_append c.key c.run c.blobs req s)
        ∙ (write_append-SameRuns c.key c.run c.blobs req s).closed
