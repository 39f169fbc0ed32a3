-- ===== src/Persistence/Append/Successor.antt =====
-- A request with a successor that does not close its run.
use skald.Prelude.{
  ◌≡◌, ◌≢◌, inl, inr, sym, ap, subst, ◌∙◌, string_eq, Bool, true, false, Option, none, some, List,
  ok, ◌==◌, arith, Outcome-cases,
}
use text.Mathlib.TextEquality.{eq_iff}
use skald.Prelude.GoMap
use skald.History.Event.{Event}
use skald.Persistence.Record.{
  ExecutionRecord, CreateExecutionRequest, AppendHistoryRequest, is_open, allow_duplicate,
}
use skald.Persistence.Store.{
  Run, Store, RunKey, run_key_eq, workflow_key_eq, key_of, workflow_of, clone_record,
}
use skald.Persistence.Plan.{CreatePlan, Result, apply_create}
use skald.Persistence.Create.{plan_create, resolve_create}
use skald.Persistence.Create.Applied.{planned_run, apply_create_self}
use skald.Persistence.Create.Plans.{Plans, plan_create-Plans}
use skald.Persistence.Append.{
  append_history, appended, plan_successor, resolve_successor, create_after, with_result,
  write_append, requested,
}
use skald.Persistence.Append.Cases.{Committed}
use skald.Persistence.Append.Accepted.{create_after-ok, append_history-record}
use skald.Persistence.Append.Stored.{
  write_append-SameRuns, get-append_history, with_result_store, resolve_create-new, is_there-false,
}
use skald.Persistence.Append.Versions.{committed, resolved_key-named}

module _ {B : Type 0} (encode : Event → Option B) where
  -- The plan of a successor.
  plan_successor-some :
      (req : AppendHistoryRequest) (sub : CreateExecutionRequest) (o : Option (CreatePlan B))
      → req.create_successor ≡ some sub
      → plan_successor encode req ≡ ok o
      → (p : CreatePlan B) × (o ≡ some p)
        × (plan_create encode (record sub { reuse_policy = allow_duplicate }) ≡ ok p)
        × (sub.rec.namespace ≡ req.namespace)
        × (sub.rec.workflow_id ≡ req.workflow_id)
  unfolding plan_successor
  plan_successor-some req sub o e h =
      elim (Outcome-cases (plan_create encode (record sub { reuse_policy = allow_duplicate }))) [
        | inl (p, f) ↦ (
          p,
          ground (arith, e, f),
          f,
          ground (arith, e, f, eq_iff sub.rec.namespace req.namespace),
          ground (arith, e, f, eq_iff sub.rec.workflow_id req.workflow_id),
        )
        | inr (inl (x, f)) ↦ absurd (ground (arith, e, f))
        | inr (inr f) ↦ absurd (ground (arith, e, f))
      ]

  -- A successor without a request id is not skipped.
  unskipped :
      (p : CreatePlan B) (key : RunKey) (s : Store B) (skip : Bool)
      → (p.request_id == "") ≡ true
      → (resolve_successor encode (some p) key s).0 ≡ ok skip
      → skip ≡ false
  unfolding resolve_successor resolve_create
  unskipped p key s skip i h = ground (arith, i)

  fresh_successor :
      (p : CreatePlan B) (key : RunKey) (s : Store B)
      → (resolve_successor encode (some p) key s).0 ≡ ok false
      → GoMap.get s.runs (key_of p.rec) ≡ none
  unfolding resolve_successor
  fresh_successor p key s h =
      resolve_create-new encode p (some key) s
        (is_there-false encode (resolve_create encode p (some key) s) h)

  both :
      {o o' : Option (CreatePlan B)} {b b' : Bool}
      → o ≡ o'
      → b ≡ b'
      → ◌≡◌ {A = Option (CreatePlan B) × Bool} (o, b) (o', b')
  both e f = cc

  appended-open :
      (r : Run B) (blobs : List B) (req : AppendHistoryRequest)
      → is_open r.rec ≡ true
      → is_open req.rec ≡ true
      → is_open (appended r blobs req).rec ≡ true
  unfolding appended
  appended-open r blobs req a b = ground (arith, a, b)

  accepted_open :
      (req : AppendHistoryRequest) (closing : ExecutionRecord) (sub : CreateExecutionRequest)
      (s : Store B) (c : Committed encode (record req { rec = closing }) s)
      → (req.run_id == "") ≡ false
      → req.create_successor ≡ some sub
      → sub.request_id ≡ ""
      → s.closed ≡ false
      → GoMap.get s.current (record { namespace = req.namespace; workflow_id = req.workflow_id })
        ≡ some (requested req)
      → (out : ExecutionRecord) × ((append_history encode req s).0 ≡ ok out)
  accepted_open req closing sub s c named has unnamed running current =
      let key : c.key ≡ requested req =
        cc (c.resolved, resolved_key-named (requested req) s named) in
      let (p, is_p, plan, ns, wf) =
        plan_successor-some (record req { rec = closing }) sub c.successor has c.planned in
      let plans : Plans encode (record sub { reuse_policy = allow_duplicate }) p =
        plan_create-Plans encode (record sub { reuse_policy = allow_duplicate }) p plan in
      let skipped : (resolve_successor encode (some p) (key_of c.run.rec) s).0 ≡ ok c.skip =
        subst (λ o. (resolve_successor encode o (key_of c.run.rec) s).0 ≡ ok c.skip) is_p
          c.skipped in
      let skip : c.skip ≡ false =
        unskipped p (key_of c.run.rec) s c.skip (ap (λ i. i == "") (plans.request_id ∙ unnamed))
          skipped in
      let t : Store B = write_append c.key c.run c.blobs req s in
      let same = write_append-SameRuns c.key c.run c.blobs req s in
      let out : ExecutionRecord = clone_record (appended c.run c.blobs req).rec in
      let workflow : workflow_of p.rec
          ≡ record { namespace = req.namespace; workflow_id = req.workflow_id } =
        ap workflow_of plans.rec ∙ cc (ns, wf) in
      let result : append_history encode req s ≡ create_after (some p) false out t =
        subst (λ o. append_history encode req s ≡ create_after o.0 o.1 out t) (both is_p skip)
          (append_history-record encode req closing s c running) in
      (
        out,
        ap (λ (r : Result B ExecutionRecord). r.0) result
            ∙ create_after-ok p out t c.key (appended c.run c.blobs req)
                (ap (λ m. GoMap.get m (workflow_of p.rec)) same.current
                  ∙ ap (GoMap.get s.current) workflow
                  ∙ current
                  ∙ ap some (sym key))
                (ap (λ m. GoMap.get m c.key) same.runs
                  ∙ GoMap.get-put_self s.runs c.key (appended c.run c.blobs req)),
      )

  -- The run and its successor after a request that is accepted.
  two_open :
      (req : AppendHistoryRequest) (sub : CreateExecutionRequest) (s : Store B) (run : Run B)
      (rec : ExecutionRecord)
      → (req.run_id == "") ≡ false
      → req.create_successor ≡ some sub
      → sub.request_id ≡ ""
      → GoMap.get s.runs (requested req) ≡ some run
      → is_open run.rec ≡ true
      → is_open req.rec ≡ true
      → is_open sub.rec ≡ true
      → (append_history encode req s).0 ≡ ok rec
      → (before after : Run B) × (GoMap.get (append_history encode req s).1.runs (requested req)
          ≡ some before)
        × (GoMap.get (append_history encode req s).1.runs (key_of sub.rec) ≡ some after)
        × (is_open before.rec ≡ true)
        × (is_open after.rec ≡ true)
        × (requested req ≢ key_of sub.rec)
        × (sub.rec.namespace ≡ req.namespace)
        × (sub.rec.workflow_id ≡ req.workflow_id)
  two_open req sub s run rec named has unnamed found open_ stays opens accepted =
      let c : Committed encode req s = committed encode req s rec accepted in
      let key : c.key ≡ requested req =
        cc (c.resolved, resolved_key-named (requested req) s named) in
      let same : c.run ≡ run = cc (key, c.found, found) in
      let (p, is_p, plan, ns, wf) = plan_successor-some req sub c.successor has c.planned in
      let plans : Plans encode (record sub { reuse_policy = allow_duplicate }) p =
        plan_create-Plans encode (record sub { reuse_policy = allow_duplicate }) p plan in
      let skipped : (resolve_successor encode (some p) (key_of c.run.rec) s).0 ≡ ok c.skip =
        subst (λ o. (resolve_successor encode o (key_of c.run.rec) s).0 ≡ ok c.skip) is_p
          c.skipped in
      let skip : c.skip ≡ false =
        unskipped p (key_of c.run.rec) s c.skip (ap (λ i. i == "") (plans.request_id ∙ unnamed))
          skipped in
      let fresh : GoMap.get s.runs (key_of p.rec) ≡ none =
        fresh_successor p (key_of c.run.rec) s (skipped ∙ ap ok skip) in
      let sub_key : key_of p.rec ≡ key_of sub.rec = ap key_of plans.rec in
      let t : Store B = write_append c.key c.run c.blobs req s in
      let out : ExecutionRecord = clone_record (appended c.run c.blobs req).rec in
      let result : append_history encode req s ≡ with_result out (apply_create p t) =
        subst (λ o. append_history encode req s ≡ create_after o.0 o.1 out t) (both is_p skip)
          c.result in
      let written : (append_history encode req s).1 ≡ (apply_create p t).1 =
        ap (λ (r : Result B ExecutionRecord). r.1) result
        ∙ with_result_store out (apply_create p t) in
      let stored : GoMap.get (append_history encode req s).1.runs (key_of p.rec)
          ≡ some (planned_run p) =
        ap (λ (u : Store B). GoMap.get u.runs (key_of p.rec)) written
        ∙ apply_create_self p (write_append c.key c.run c.blobs req s) in
      (
        appended c.run c.blobs req,
        planned_run p,
        ap (GoMap.get (append_history encode req s).1.runs) (sym key)
            ∙ get-append_history encode req s c,
        ap (GoMap.get (append_history encode req s).1.runs) (sym sub_key) ∙ stored,
        appended-open c.run c.blobs req (ap (λ (r : Run B). is_open r.rec) same ∙ open_) stays,
        ap is_open plans.rec ∙ opens,
        λ e. cc (fresh, sub_key, e, found),
        ns,
        wf,
      )

  -- AppendHistory does not look at whether a request with a successor closes its run. Let a request
  -- be accepted that brings some record, such as one that closes the run, names the run, which is
  -- open and the current one, by the run id, and has an open successor without a request id. Then the
  -- same request with a record that leaves the run open is accepted too, and after it both the run
  -- and its successor are open, and they are two runs of one workflow id.
  pub append_history_two_open :
      (req : AppendHistoryRequest) (closing : ExecutionRecord) (sub : CreateExecutionRequest)
      (s : Store B) (run : Run B) (rec : ExecutionRecord)
      → (req.run_id == "") ≡ false
      → req.create_successor ≡ some sub
      → sub.request_id ≡ ""
      → s.closed ≡ false
      → GoMap.get s.runs (requested req) ≡ some run
      → GoMap.get s.current (record { namespace = req.namespace; workflow_id = req.workflow_id })
        ≡ some (requested req)
      → is_open run.rec ≡ true
      → is_open req.rec ≡ true
      → is_open sub.rec ≡ true
      → (append_history encode (record req { rec = closing }) s).0 ≡ ok rec
      → (out : ExecutionRecord) × ((append_history encode req s).0 ≡ ok out)
        × (before after : Run B) × (GoMap.get (append_history encode req s).1.runs (requested req)
            ≡ some before)
        × (GoMap.get (append_history encode req s).1.runs (key_of sub.rec) ≡ some after)
        × (is_open before.rec ≡ true)
        × (is_open after.rec ≡ true)
        × (requested req ≢ key_of sub.rec)
        × (sub.rec.namespace ≡ req.namespace)
        × (sub.rec.workflow_id ≡ req.workflow_id)
  append_history_two_open req closing sub s run rec named has unnamed running found current open_
        stays opens accepted =
      let c : Committed encode (record req { rec = closing }) s =
        committed encode (record req { rec = closing }) s rec accepted in
      let out = accepted_open req closing sub s c named has unnamed running current in
      let (before, after, b, a, b_open, a_open, apart, ns, wf) =
        two_open req sub s run out.0 named has unnamed found open_ stays opens out.1 in
      (out.0, out.1, before, after, b, a, b_open, a_open, apart, ns, wf)
