-- ===== src/Persistence/Append/Accepted.antt =====
-- Whether AppendHistory accepts a request does not depend on the record that it brings.
use skald.Prelude.{
  ◌≡◌, ◌≢◌, refl, ap, err, panic, Outcome-cases, ◌∙◌, inl, inr, false, Option, some, ok, arith,
}
use skald.Prelude.GoMap
use skald.History.Event.{Event}
use skald.Persistence.Record.{ExecutionRecord, AppendHistoryRequest}
use skald.Persistence.Store.{
  Run, Store, RunKey, run_key_eq, workflow_key_eq, key_of, workflow_of, clone_record,
}
use skald.Persistence.Plan.{CreatePlan, Result, apply_create}
use skald.Persistence.Create.Applied.{planned_run, apply_create-ne-err}
use skald.Persistence.Append.{
  append_history, appended, check_append, plan_successor, create_after, with_result, write_append,
  commit,
}
use skald.Persistence.Append.Cases.{Committed, at_check, resolve_successor_same, pair_eq}

module _ {B : Type 0} where
  apply_create-panic :
      (p : CreatePlan B) (t : Store B) (cur : RunKey) (prev : Run B)
      → GoMap.get t.current (workflow_of p.rec) ≡ some cur
      → GoMap.get t.runs cur ≡ some prev
      → (apply_create p t).0 ≢ panic
  unfolding apply_create
  apply_create-panic p t cur prev c f e =
      ground (arith, c, f, e, GoMap.get-put t.runs (key_of p.rec) cur (planned_run p))

  with_result-ok :
      (out rec : ExecutionRecord) (r : Result B ExecutionRecord)
      → r.0 ≡ ok rec
      → (with_result out r).0 ≡ ok out
  with_result-ok out rec (ok x, s) h = refl
  with_result-ok out rec (err x, s) h = cc
  with_result-ok out rec (panic, s) h = cc

  -- A create whose current run is stored is applied.
  apply_create-ok :
      (p : CreatePlan B) (t : Store B) (cur : RunKey) (prev : Run B)
      → GoMap.get t.current (workflow_of p.rec) ≡ some cur
      → GoMap.get t.runs cur ≡ some prev
      → (rec : ExecutionRecord) × ((apply_create p t).0 ≡ ok rec)
  unfolding apply_create
  apply_create-ok p t cur prev c f = elim (Outcome-cases (apply_create p t).0) [
    | inl accepted ↦ accepted
    | inr (inl (x, e)) ↦ absurd (apply_create-ne-err p t x e)
    | inr (inr e) ↦ absurd (apply_create-panic p t cur prev c f e)
  ]

  pub create_after-ok :
      (p : CreatePlan B) (out : ExecutionRecord) (t : Store B) (cur : RunKey) (prev : Run B)
      → GoMap.get t.current (workflow_of p.rec) ≡ some cur
      → GoMap.get t.runs cur ≡ some prev
      → (create_after (some p) false out t).0 ≡ ok out
  create_after-ok p out t cur prev c f =
      let (rec, e) = apply_create-ok p t cur prev c f in with_result-ok out rec (apply_create p t) e

module _ {B : Type 0} (encode : Event → Option B) where
  pub append_history-record :
      (req : AppendHistoryRequest) (closing : ExecutionRecord) (s : Store B)
      (c : Committed encode (record req { rec = closing }) s)
      → s.closed ≡ false
      → append_history encode req s
        ≡ create_after c.successor c.skip
            (clone_record (appended c.run c.blobs req).rec)
            (write_append c.key c.run c.blobs req s)
  unfolding check_append plan_successor
  append_history-record req closing s c running =
      at_check encode req s c.key c.run c.blobs c.successor (simp (c.encoded, c.planned)) c.encoded
        c.planned running c.resolved c.found (ok tt) c.checked
      ∙ ap (commit c.key c.run c.blobs c.successor req) (
          pair_eq c.skipped
            (resolve_successor_same encode c.successor req (key_of c.run.rec) s c.planned))
