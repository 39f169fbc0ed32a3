-- ===== src/Persistence/Create/Retried.antt =====
-- CreateExecution that is retried with the same request id.
use skald.Prelude.{
  ◌≡◌, inl, inr, refl, sym, ap, subst, ◌∙◌, string_eq, Bool, true, false, Option, none, some,
  Outcome, ok, err, panic, ◌==◌, arith, Bool-cases,
}
use skald.Prelude.GoMap
use skald.History.Event.{Event, Time}
use skald.Persistence.Record.{
  ExecutionRecord, CreateExecutionRequest, IdReusePolicy, allow_duplicate,
  allow_duplicate_failed_only, reject_duplicate, terminate_if_running,
}
use skald.Persistence.Store.{
  Run, Store, RunKey, run_key_eq, dedup_key_eq, StoreError, drop_run_timers, workflow_key_eq,
  workflow_of, key_of, dedup_of, clone_record,
}
use skald.Persistence.Plan.{CreatePlan, Result, is_stored, original, apply_create}
use skald.Persistence.Create.{
  plan_create, resolve_create, resolved, planned, create_execution, terminate_run, unless_original,
  with_current, with_prev, by_policy, go_on, refuse_taken,
}
use skald.Persistence.Create.Applied.{
  planned_run, apply_create_self, apply_create-dedup, apply_create-rec, apply_create-closed,
}

module _ {B : Type 0} (encode : Event → Option B) where
  pub plan_create-request_id :
      (req : CreateExecutionRequest) (p : CreatePlan B)
      → plan_create encode req ≡ ok p
      → p.request_id ≡ req.request_id
  unfolding plan_create
  plan_create-request_id req p h = ground arith

  -- The original run of a plan answers it, and nothing changes.
  resolved-original :
      (p : CreatePlan B) (s : Store B) (r : Run B)
      → original p s ≡ some r
      → resolved p (resolve_create encode p none s) ≡ (ok (clone_record r.rec), s)
  unfolding resolve_create
  resolved-original p s r h = simp h

  -- A run that is stored and remembered under the request id is the original.
  original-of :
      (p : CreatePlan B) (s : Store B)
      → (p.request_id == "") ≡ false
      → GoMap.get s.dedup (dedup_of p.rec p.request_id) ≡ some (key_of p.rec)
      → GoMap.get s.runs (key_of p.rec) ≡ some (planned_run p)
      → original p s ≡ some (planned_run p)
  original-of p s named h k = simp (named, h, k)

  resolve_create-some :
      (p : CreatePlan B) (s : Store B) (r : ExecutionRecord) (t : Store B)
      → resolve_create encode p none s ≡ (ok (some r), t)
      → t ≡ s
  unfolding resolve_create
  resolve_create-some p s r t h = ground arith

  -- What a plan that succeeds leaves is a store in which it has its original run.
  resolved_again :
      (p : CreatePlan B) (s : Store B) (rec : ExecutionRecord)
      (o : Result B (Option ExecutionRecord))
      → resolve_create encode p none s ≡ o
      → (p.request_id == "") ≡ false
      → (resolved p o).0 ≡ ok rec
      → resolved p (resolve_create encode p none (resolved p o).1) ≡ (ok rec, (resolved p o).1)
  resolved_again p s rec (ok (some r), t) h named k =
      let same : t ≡ s = resolve_create-some p s r t h in
      ap (resolved p) (
        subst (λ u. resolve_create encode p none u ≡ (ok (some r), u)) (sym same)
          (h ∙ ap (λ u. (ok (some r), u)) same))
      ∙ ap (λ o. (o, t)) k
  resolved_again p s rec (ok none, t) h named k =
      resolved-original p (apply_create p t).1 (planned_run p) (
        original-of p (apply_create p t).1 named (apply_create-dedup p t rec named k)
          (apply_create_self p t))
      ∙ ap (λ r. (ok r, (apply_create p t).1)) (sym (apply_create-rec p t rec k))
  resolved_again p s rec (err e, t) h named k = cc
  resolved_again p s rec (panic, t) h named k = cc

  terminate_run-closed :
      (cur : RunKey) (r : Run B) (at : Time) (s : Store B)
      → (terminate_run encode cur r at s).1.closed ≡ s.closed
  unfolding terminate_run drop_run_timers
  terminate_run-closed cur r at s = ground arith

  go_on-closed : (r : Result B (Unit {0})) → (go_on encode r).1.closed ≡ r.1.closed
  go_on-closed (ok u, s) = refl
  go_on-closed (err e, s) = refl
  go_on-closed (panic, s) = refl

  refuse_taken-closed : (b : Bool) (s : Store B) → (refuse_taken b s).1.closed ≡ s.closed
  refuse_taken-closed true s = refl
  refuse_taken-closed false s = refl

  by_policy-closed :
      (policy : IdReusePolicy) (was_open : Bool) (cur : RunKey) (prev : Run B) (at : Time)
      (s : Store B)
      → (by_policy encode policy was_open cur prev at s).1.closed ≡ s.closed
  by_policy-closed reject_duplicate was_open cur prev at s = refl
  by_policy-closed allow_duplicate_failed_only was_open cur prev at s = refuse_taken-closed _ s
  by_policy-closed terminate_if_running true cur prev at s =
      go_on-closed (terminate_run encode cur prev at s) ∙ terminate_run-closed cur prev at s
  by_policy-closed terminate_if_running false cur prev at s = refl
  by_policy-closed allow_duplicate was_open cur prev at s = refuse_taken-closed was_open s

  with_prev-closed :
      (p : CreatePlan B) (c : Option RunKey) (cur : RunKey) (o : Option (Run B)) (s : Store B)
      → (with_prev encode p c cur o s).1.closed ≡ s.closed
  with_prev-closed p c cur none s = refl
  with_prev-closed p c cur (some prev) s = by_policy-closed p.reuse _ cur prev p.rec.started_at s

  with_current-closed :
      (p : CreatePlan B) (c o : Option RunKey) (s : Store B)
      → (with_current encode p c o s).1.closed ≡ s.closed
  with_current-closed p c none s = refl
  with_current-closed p c (some cur) s = with_prev-closed p c cur (GoMap.get s.runs cur) s

  unless_original-closed :
      (p : CreatePlan B) (c : Option RunKey) (s : Store B) (o : Option (Run B))
      → (unless_original encode p c s o).1.closed ≡ s.closed
  unless_original-closed p c s none = elim (Bool-cases (is_stored (key_of p.rec) s)) [
    | inl e ↦ rw e
    | inr e ↦ rw e (with_current-closed p c (GoMap.get s.current (workflow_of p.rec)) s)
  ]
  unless_original-closed p c s (some r) = refl

  resolve_create-closed :
      (p : CreatePlan B) (c : Option RunKey) (s : Store B)
      → (resolve_create encode p c s).1.closed ≡ s.closed
  unfolding resolve_create
  resolve_create-closed p c s = unless_original-closed p c s (original p s)

  resolved-closed :
      (p : CreatePlan B) (o : Result B (Option ExecutionRecord))
      → (resolved p o).1.closed ≡ o.1.closed
  resolved-closed p (ok (some r), t) = refl
  resolved-closed p (ok none, t) = apply_create-closed p t
  resolved-closed p (err e, t) = refl
  resolved-closed p (panic, t) = refl

  planned_again :
      (req : CreateExecutionRequest) (s : Store B) (rec : ExecutionRecord)
      (o : Outcome StoreError (CreatePlan B))
      → plan_create encode req ≡ o
      → (req.request_id == "") ≡ false
      → (planned encode o s).0 ≡ ok rec
      → planned encode o (planned encode o s).1 ≡ (ok rec, (planned encode o s).1)
  planned_again req s rec (ok p) e named h = elim (Bool-cases s.closed) [
    | inl closed ↦ absurd (ground (arith, closed))
    | inr running ↦
        let r : Result B ExecutionRecord = resolved p (resolve_create encode p none s) in
        let at : planned encode (ok p) s ≡ r = simp running in
        let still : r.1.closed ≡ false =
          resolved-closed p (resolve_create encode p none s)
          ∙ resolve_create-closed p none s
          ∙ running in
        let named' : (p.request_id == "") ≡ false =
          ap (λ i. i == "") (plan_create-request_id req p e) ∙ named in
        subst (λ (u : Result B ExecutionRecord). planned encode (ok p) u.1 ≡ (ok rec, u.1)) (sym at)
          (simp still (
            resolved_again p s rec (resolve_create encode p none s) refl named'
              (sym (ap (λ (u : Result B ExecutionRecord). u.0) at) ∙ h)))
  ]
  planned_again req s rec (err x) e named h = cc
  planned_again req s rec panic e named h = cc

  -- CreateExecution with a request id that succeeded once succeeds again with the same request: it
  -- returns the same record and changes nothing.
  pub create_execution_again :
      (req : CreateExecutionRequest) (s : Store B) (rec : ExecutionRecord)
      → (req.request_id == "") ≡ false
      → (create_execution encode req s).0 ≡ ok rec
      → create_execution encode req (create_execution encode req s).1
        ≡ (ok rec, (create_execution encode req s).1)
  unfolding create_execution
  create_execution_again req s rec = planned_again req s rec (plan_create encode req) refl
