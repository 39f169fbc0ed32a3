-- ===== src/Persistence/Create/Skewed.antt =====
-- A start whose start time is before that of the current run.
use skald.Prelude.{
  ◌≡◌, ◌≢◌, inl, inr, refl, sym, ap, ◌∙◌, string_eq, true, false, Option, none, some, ok, err, ◌==◌,
  arith, Outcome-cases, Bool-cases,
}
use skald.Prelude.Int.{pos, int_eq, ltb_ℤ}
use skald.Prelude.GoMap
use skald.History.Event.{Event, History}
use skald.Persistence.Record.{ExecutionRecord, CreateExecutionRequest, is_open, allow_duplicate}
use skald.Persistence.Store.{
  Run, Store, RunKey, run_key_eq, workflow_key_eq, dedup_key_eq, already_started, key_of,
  workflow_of, newer,
}
use skald.Persistence.Timers.{upsert_timers-SameRuns}
use skald.Persistence.Checks.{normalized}
use skald.Persistence.Plan.{
  CreatePlan, Result, apply_create, finish_create, update_current, put_run, remember, is_stored,
}
use skald.Persistence.Create.{plan_create, resolve_create, resolved, planned, create_execution}
use skald.Persistence.Create.Applied.{
  planned_run, apply_create_self, apply_create-ne-err, apply_create-closed, get-apply_create,
}
use skald.Persistence.Create.Plans.{
  Plans, plan_create-Plans, plan_create-ne-started, create_execution-plan, accepted_plan,
}

module _ {B : Type 0} where
  finish_create-current :
      (p : CreatePlan B) (t : Store B) (o : Option (Store B))
      → ((u : Store B) → o ≡ some u → u.current ≡ t.current)
      → (finish_create p t o).1.current ≡ t.current
  finish_create-current p t none h = refl
  finish_create-current p t (some u) h =
      (upsert_timers-SameRuns (key_of p.rec) p.timers (remember p u)).current
      ∙ remember-current p u
      ∙ h u refl
    where
      remember-current : (p : CreatePlan B) (s : Store B) → (remember p s).current ≡ s.current
      remember-current p s = ground arith

  -- A run that is not newer than the current one does not become current.
  apply_create-current :
      (p : CreatePlan B) (s : Store B) (cur : RunKey) (prev : Run B)
      → GoMap.get s.current (workflow_of p.rec) ≡ some cur
      → GoMap.get s.runs cur ≡ some prev
      → (key_of p.rec == cur) ≡ false
      → newer p.rec prev.rec ≡ false
      → (apply_create p s).1.current ≡ s.current
  unfolding apply_create
  apply_create-current p s cur prev c r other older =
      finish_create-current p (put_run p s) (update_current p (put_run p s)) same
    where
      same : (u : Store B) → update_current p (put_run p s) ≡ some u → u.current ≡ s.current
      same u h =
          ground (arith, c, r, older, GoMap.get-put s.runs (key_of p.rec) cur (planned_run p))

  is_stored-none : (k : RunKey) (s : Store B) → GoMap.get s.runs k ≡ none → is_stored k s ≡ false
  is_stored-none k s n = ground (arith, n)

  keys_differ :
      (j k : RunKey) (s : Store B) (r : Run B)
      → GoMap.get s.runs j ≡ none
      → GoMap.get s.runs k ≡ some r
      → (j == k) ≡ false
  keys_differ j k s r n h = elim (Bool-cases (j == k)) [
    | inl e ↦ absurd (cc (n, h, (run_key_eq.beq_iff j k).0 e))
    | inr e ↦ e
  ]

module _ {B : Type 0} (encode : Event → Option B) where
  -- A new run id of a workflow whose current run is closed is free.
  resolve_create-free :
      (p : CreatePlan B) (s : Store B) (cur : RunKey) (prev : Run B)
      → (p.request_id == "") ≡ true
      → p.reuse ≡ allow_duplicate
      → GoMap.get s.runs (key_of p.rec) ≡ none
      → GoMap.get s.current (workflow_of p.rec) ≡ some cur
      → GoMap.get s.runs cur ≡ some prev
      → is_open prev.rec ≡ false
      → resolve_create encode p none s ≡ (ok none, s)
  unfolding resolve_create
  resolve_create-free p s cur prev i a n c r closed =
      simp (i, a, is_stored-none (key_of p.rec) s n, c, r, closed)

  module _ (s : Store B) (cur : RunKey) (prev : Run B) (found : GoMap.get s.runs cur ≡ some prev)
      (closed : is_open prev.rec ≡ false) (running : s.closed ≡ false) where
    -- The plan of a start that is free, and its application.
    abbrev Free : CreateExecutionRequest → Type 0
    Free req =
        (req.request_id ≡ "")
        × (req.reuse_policy ≡ allow_duplicate)
        × (GoMap.get s.runs (key_of req.rec) ≡ none)
        × (GoMap.get s.current (workflow_of req.rec) ≡ some cur)

    planned-Free :
        (req : CreateExecutionRequest) (p : CreatePlan B)
        → Free req
        → plan_create encode req ≡ ok p
        → planned encode (ok p) s ≡ apply_create p s
    planned-Free req p free h =
        let plans : Plans encode req p = plan_create-Plans encode req p h in
        let key : key_of p.rec ≡ key_of req.rec = ap key_of plans.rec in
        let workflow : workflow_of p.rec ≡ workflow_of req.rec = ap workflow_of plans.rec in
        simp running (
          ap (resolved p) (
            resolve_create-free p s cur prev (ap (λ i. i == "") (plans.request_id ∙ free.0))
              (plans.reuse ∙ free.1) (ap (GoMap.get s.runs) key ∙ free.2)
              (ap (GoMap.get s.current) workflow ∙ free.3) found closed))

    Free-ne-started :
        (req : CreateExecutionRequest)
        → Free req
        → (create_execution encode req s).0 ≢ err already_started
    unfolding create_execution
    Free-ne-started req free h = elim (Outcome-cases (plan_create encode req)) [
      | inl (p, e) ↦ apply_create-ne-err p s already_started (
          sym (ap (λ (r : Result B ExecutionRecord). r.0) (planned-Free req p free e))
          ∙ sym (ap (λ o. (planned encode o s).0) e)
          ∙ h)
      | inr (inl (x, e)) ↦ ground (arith, e, plan_create-ne-started encode req)
      | inr (inr e) ↦ ground (arith, e)
    ]

  older-newer :
      (a b : ExecutionRecord) (events : History)
      → (a.started_at == pos 0) ≡ false
      → ltb_ℤ a.started_at b.started_at ≡ true
      → newer (normalized a events) b ≡ false
  unfolding newer
  older-newer a b events n h = simp n (ground (arith, h))

  -- A start that succeeds with a start time before that of the current run, which is closed, does not
  -- become current: the run that was current still is. So a later start under a new run id is not refused as already started, though the run
  -- of the first start is open. Both starts have the policy that allows a new run once the last one
  -- closed, and no request id.
  pub create_execution_skewed :
      (req later : CreateExecutionRequest) (s : Store B) (cur : RunKey) (prev : Run B)
      (rec : ExecutionRecord)
      → s.closed ≡ false
      → GoMap.get s.current (workflow_of req.rec) ≡ some cur
      → GoMap.get s.runs cur ≡ some prev
      → is_open prev.rec ≡ false
      → GoMap.get s.runs (key_of req.rec) ≡ none
      → (req.request_id ≡ "") × (later.request_id ≡ "")
      → (req.reuse_policy ≡ allow_duplicate) × (later.reuse_policy ≡ allow_duplicate)
      → is_open req.rec ≡ true
      → (req.rec.started_at == pos 0) ≡ false
      → ltb_ℤ req.rec.started_at prev.rec.started_at ≡ true
      → workflow_of later.rec ≡ workflow_of req.rec
      → GoMap.get (create_execution encode req s).1.runs (key_of later.rec) ≡ none
      → (create_execution encode req s).0 ≡ ok rec
      → (run : Run B) × (GoMap.get (create_execution encode req s).1.runs (key_of req.rec)
          ≡ some run)
        × (is_open run.rec ≡ true)
        × (GoMap.get (create_execution encode req s).1.current (workflow_of req.rec) ≡ some cur)
        × ((create_execution encode later (create_execution encode req s).1).0
            ≢ err already_started)
  create_execution_skewed req later s cur prev rec running current found closed fresh ids policies
        open_ started older same_workflow later_fresh accepted =
      let (p, plan) = accepted_plan encode req s rec accepted in
      let plans : Plans encode req p = plan_create-Plans encode req p plan in
      let key : key_of p.rec ≡ key_of req.rec = ap key_of plans.rec in
      let applied : create_execution encode req s ≡ apply_create p s =
        create_execution-plan encode req p s plan
        ∙ planned-Free s cur prev found closed running req p (ids.0, policies.0, fresh, current)
            plan in
      let t : Store B = (create_execution encode req s).1 in
      let store : t ≡ (apply_create p s).1 = ap (λ (r : Result B ExecutionRecord). r.1) applied in
      let other : (key_of p.rec == cur) ≡ false =
        keys_differ (key_of p.rec) cur s prev (ap (GoMap.get s.runs) key ∙ fresh) found in
      let still : GoMap.get t.current (workflow_of req.rec) ≡ some cur =
        ap (λ (u : Store B). GoMap.get u.current (workflow_of req.rec)) store
        ∙ ap (λ m. GoMap.get m (workflow_of req.rec))
            (apply_create-current p s cur prev
              (ap (λ r. GoMap.get s.current (workflow_of r)) plans.rec ∙ current) found other
              (ap (λ r. newer r prev.rec) plans.rec
                ∙ older-newer req.rec prev.rec req.events started older))
        ∙ current in
      (
        planned_run p,
        ap (λ (u : Store B). GoMap.get u.runs (key_of req.rec)) store
            ∙ ap (GoMap.get (apply_create p s).1.runs) (sym key)
            ∙ apply_create_self p s,
        ap is_open plans.rec ∙ open_,
        still,
        Free-ne-started t cur prev
            (ap (λ (u : Store B). GoMap.get u.runs cur) store
              ∙ get-apply_create p s cur other
              ∙ found)
            closed (ap (λ (u : Store B). u.closed) store ∙ apply_create-closed p s ∙ running) later
            (ids.1, policies.1, later_fresh, ap (GoMap.get t.current) same_workflow ∙ still),
      )
