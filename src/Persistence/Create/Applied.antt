-- ===== src/Persistence/Create/Applied.antt =====
-- What applyCreateLocked leaves in the store.
use skald.Prelude.{
  ◌≡◌, ◌≢◌, refl, ap, ◌∙◌, string_eq, false, Option, none, some, ok, err, ◌==◌, arith,
}
use skald.Prelude.GoMap
use skald.Persistence.Record.{ExecutionRecord}
use skald.Persistence.Store.{
  Run, Store, RunKey, run_key_eq, workflow_key_eq, dedup_key_eq, StoreError, key_of, dedup_of,
  clone_record,
}
use skald.Persistence.Timers.{upsert_timers-SameRuns}
use skald.Persistence.Plan.{
  CreatePlan, finish_create, update_current, remember, put_run, apply_create,
}

-- The run that a plan stores.
abbrev pub planned_run : {B : Type 0} → CreatePlan B → Run B
planned_run p = record { rec = p.rec; events = p.blobs; last_event = p.last_event }

module _ {B : Type 0} where
  pub apply_create-ne-err :
      (p : CreatePlan B) (s : Store B) (e : StoreError) → (apply_create p s).0 ≢ err e
  unfolding apply_create
  apply_create-ne-err p s e = ground arith

  update_current-runs :
      (p : CreatePlan B) (t u : Store B) → update_current p t ≡ some u → u.runs ≡ t.runs
  update_current-runs p t u h = ground arith

  remember-runs : (p : CreatePlan B) (s : Store B) → (remember p s).runs ≡ s.runs
  remember-runs p s = ground arith

  finish_create-runs :
      (p : CreatePlan B) (t : Store B) (o : Option (Store B))
      → ((u : Store B) → o ≡ some u → u.runs ≡ t.runs)
      → (finish_create p t o).1.runs ≡ t.runs
  finish_create-runs p t none h = refl
  finish_create-runs p t (some u) h =
      (upsert_timers-SameRuns (key_of p.rec) p.timers (remember p u)).runs
      ∙ remember-runs p u
      ∙ h u refl

  pub apply_create-runs :
      (p : CreatePlan B) (s : Store B) → (apply_create p s).1.runs ≡ (put_run p s).runs
  unfolding apply_create
  apply_create-runs p s =
      finish_create-runs p (put_run p s) (update_current p (put_run p s))
        (update_current-runs p (put_run p s))

  finish_create-closed :
      (p : CreatePlan B) (t : Store B) (o : Option (Store B))
      → ((u : Store B) → o ≡ some u → u.closed ≡ t.closed)
      → (finish_create p t o).1.closed ≡ t.closed
  finish_create-closed p t none h = refl
  finish_create-closed p t (some u) h =
      (upsert_timers-SameRuns (key_of p.rec) p.timers (remember p u)).closed
      ∙ remember-closed p u
      ∙ h u refl
    where
      remember-closed : (p : CreatePlan B) (s : Store B) → (remember p s).closed ≡ s.closed
      remember-closed p s = ground arith

  pub apply_create-closed :
      (p : CreatePlan B) (s : Store B) → (apply_create p s).1.closed ≡ s.closed
  unfolding apply_create
  apply_create-closed p s =
      finish_create-closed p (put_run p s) (update_current p (put_run p s)) (λ u h. closed_same u h)
    where
      closed_same : (u : Store B) → update_current p (put_run p s) ≡ some u → u.closed ≡ s.closed
      closed_same u h = ground arith

  -- A create writes no other run.
  pub get-apply_create :
      (p : CreatePlan B) (s : Store B) (k : RunKey)
      → (key_of p.rec == k) ≡ false
      → GoMap.get (apply_create p s).1.runs k ≡ GoMap.get s.runs k
  get-apply_create p s k h =
      ap (λ m. GoMap.get m k) (apply_create-runs p s)
      ∙ GoMap.get-put s.runs (key_of p.rec) k _
      ∙ simp h

  pub apply_create_self :
      (p : CreatePlan B) (s : Store B)
      → GoMap.get (apply_create p s).1.runs (key_of p.rec) ≡ some (planned_run p)
  apply_create_self p s =
      ap (λ m. GoMap.get m (key_of p.rec)) (apply_create-runs p s)
      ∙ GoMap.get-put_self s.runs (key_of p.rec) (planned_run p)

  finish_create-dedup :
      (p : CreatePlan B) (t : Store B) (o : Option (Store B)) (rec : ExecutionRecord)
      → (p.request_id == "") ≡ false
      → (finish_create p t o).0 ≡ ok rec
      → GoMap.get (finish_create p t o).1.dedup (dedup_of p.rec p.request_id) ≡ some (key_of p.rec)
  finish_create-dedup p t none rec named h = cc
  finish_create-dedup p t (some u) rec named h =
      ap (λ m. GoMap.get m (dedup_of p.rec p.request_id))
        (upsert_timers-SameRuns (key_of p.rec) p.timers (remember p u)).dedup
      ∙ simp (named) (GoMap.get-put_self u.dedup (dedup_of p.rec p.request_id) (key_of p.rec))

  pub apply_create-dedup :
      (p : CreatePlan B) (s : Store B) (rec : ExecutionRecord)
      → (p.request_id == "") ≡ false
      → (apply_create p s).0 ≡ ok rec
      → GoMap.get (apply_create p s).1.dedup (dedup_of p.rec p.request_id) ≡ some (key_of p.rec)
  unfolding apply_create
  apply_create-dedup p s = finish_create-dedup p (put_run p s) (update_current p (put_run p s))

  finish_create-rec :
      (p : CreatePlan B) (t : Store B) (o : Option (Store B)) (rec : ExecutionRecord)
      → (finish_create p t o).0 ≡ ok rec
      → rec ≡ clone_record p.rec
  finish_create-rec p t none rec h = cc
  finish_create-rec p t (some u) rec h = cc

  pub apply_create-rec :
      (p : CreatePlan B) (s : Store B) (rec : ExecutionRecord)
      → (apply_create p s).0 ≡ ok rec
      → rec ≡ clone_record p.rec
  unfolding apply_create
  apply_create-rec p s = finish_create-rec p (put_run p s) (update_current p (put_run p s))
