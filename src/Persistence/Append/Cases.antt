-- ===== src/Persistence/Append/Cases.antt =====
-- AppendHistory case by case: it refuses a request and leaves the store as it is, or it commits.
use skald.Prelude.{
  ◌≡◌, ◌≢◌, ◌⊎◌, inl, inr, refl, ap, ◌∙◌, Bool, false, Option, none, some, List, nat_eq, Outcome,
  ok, err, panic, Outcome-cases, Option-cases, Bool-cases, arith,
}
use skald.Prelude.GoMap
use skald.History.Event.{Event}
use skald.Persistence.Record.{
  ExecutionRecord, AppendHistoryRequest, CreateExecutionRequest, allow_duplicate,
}
use skald.Persistence.Store.{
  Run, Store, RunKey, run_key_eq, StoreError, not_found, store_closed, key_of, clone_record,
}
use skald.Persistence.Plan.{CreatePlan, Result}
use skald.Persistence.Create.{encode_events, plan_create, resolve_create}
use skald.Persistence.Reads.{resolved_key}
use skald.Persistence.Append.{
  appended, write_append, create_after, plan_successor, check_append, resolve_successor, is_there,
  commit, append_to, after_check, requested, prepared, append_history,
}

pub pair_eq : {A B : Type 0} {p : A × B} {a : A} {b : B} → p.0 ≡ a → p.1 ≡ b → p ≡ (a, b)
pair_eq h k = cc

module _ {B : Type 0} (encode : Event → Option B) where
  plan_create-reuse :
      (req : CreateExecutionRequest) (p : CreatePlan B)
      → plan_create encode req ≡ ok p
      → p.reuse ≡ req.reuse_policy
  unfolding plan_create
  plan_create-reuse req p h = ground arith

  resolve_create-allow :
      (p : CreatePlan B) (c : Option RunKey) (s : Store B)
      → p.reuse ≡ allow_duplicate
      → (resolve_create encode p c s).1 ≡ s
  unfolding resolve_create
  resolve_create-allow p c s e = ground (arith, e)

  -- A successor is planned with the policy that terminates no run.
  plan_successor-reuse :
      (req : AppendHistoryRequest) (p : CreatePlan B)
      → plan_successor encode req ≡ ok (some p)
      → p.reuse ≡ allow_duplicate
  unfolding plan_successor
  plan_successor-reuse req p h = elim (Option-cases req.create_successor) [
    | inl e ↦ ground (arith, e)
    | inr (sub, e) ↦
        ground (arith, e, plan_create-reuse (record sub { reuse_policy = allow_duplicate }) p)
  ]

  pub resolve_successor_same :
      (successor : Option (CreatePlan B)) (req : AppendHistoryRequest) (key : RunKey) (s : Store B)
      → plan_successor encode req ≡ ok successor
      → (resolve_successor encode successor key s).1 ≡ s
  unfolding resolve_successor
  resolve_successor_same none req key s h = refl
  resolve_successor_same (some p) req key s h =
      is_there_same (resolve_create encode p (some key) s)
      ∙ resolve_create-allow p (some key) s (plan_successor-reuse req p h)
    where
      is_there_same : (r : Result B (Option ExecutionRecord)) → (is_there r).1 ≡ r.1
      is_there_same (ok none, t) = refl
      is_there_same (ok (some rec), t) = refl
      is_there_same (err e, t) = refl
      is_there_same (panic, t) = refl

  module _ (req : AppendHistoryRequest) (s : Store B) where
    -- What a request that commits has passed, and what it leaves.
    pub record Committed : Type 0 where
      pub key : RunKey
      pub run : Run B
      pub blobs : List B
      pub successor : Option (CreatePlan B)
      pub skip : Bool
      pub resolved : resolved_key (requested req) s ≡ some key
      pub found : GoMap.get s.runs key ≡ some run
      pub encoded : encode_events encode req.events ≡ ok blobs
      pub planned : plan_successor encode req ≡ ok successor
      pub checked : check_append run req ≡ ok tt
      pub skipped : (resolve_successor encode successor (key_of run.rec) s).0 ≡ ok skip
      pub result :
          append_history encode req s
          ≡ create_after successor skip
              (clone_record (appended run blobs req).rec)
              (write_append key run blobs req s)

    abbrev pub Refused : Result B ExecutionRecord → Type 0
    Refused r = (r.1 ≡ s) × ((rec : ExecutionRecord) → r.0 ≢ ok rec)

    refused :
        (e : StoreError)
        → append_history encode req s ≡ (err e, s)
        → Refused (append_history encode req s)
    refused e h = rw h (refl, λ rec k. cc)

    panicked : append_history encode req s ≡ (panic, s) → Refused (append_history encode req s)
    panicked h = rw h (refl, λ rec k. cc)

    module _ (key : RunKey) (run : Run B) (blobs : List B) (successor : Option (CreatePlan B))
        (prepares : prepared encode req ≡ ok (blobs, successor))
        (encoded : encode_events encode req.events ≡ ok blobs)
        (planned : plan_successor encode req ≡ ok successor) (running : s.closed ≡ false)
        (resolved : resolved_key (requested req) s ≡ some key)
        (found : GoMap.get s.runs key ≡ some run) where
      at_run : append_history encode req s ≡ append_to encode key run blobs successor req s
      unfolding append_history
      at_run = simp (prepares, running, resolved, found)

      pub at_check :
          (o : Outcome StoreError (Unit {0}))
          → check_append run req ≡ o
          → append_history encode req s ≡ after_check encode key run blobs successor req s o
      unfolding append_to
      at_check o h = at_run ∙ ap (after_check encode key run blobs successor req s) h

      run_cases : Refused (append_history encode req s) ⊎ Committed
      run_cases = elim (Outcome-cases (check_append run req)) [
        | inl (u, checked) ↦
            let same : (resolve_successor encode successor (key_of run.rec) s).1 ≡ s =
              resolve_successor_same successor req (key_of run.rec) s planned in
            elim (Outcome-cases (resolve_successor encode successor (key_of run.rec) s).0) [
              | inl (skip, skipped) ↦ inr record {
                key = key;
                run = run;
                blobs = blobs;
                successor = successor;
                skip = skip;
                resolved = resolved;
                found = found;
                encoded = encoded;
                planned = planned;
                checked = checked;
                skipped = skipped;
                result =
                    at_check (ok u) checked
                    ∙ ap (commit key run blobs successor req) (pair_eq skipped same);
              }
              | inr (inl (e, failed)) ↦ inl (
                  refused e (
                    at_check (ok u) checked
                    ∙ ap (commit key run blobs successor req) (pair_eq failed same)))
              | inr (inr failed) ↦ inl (
                  panicked (
                    at_check (ok u) checked
                    ∙ ap (commit key run blobs successor req) (pair_eq failed same)))
            ]
        | inr (inl (e, failed)) ↦ inl (refused e (at_check (err e) failed))
        | inr (inr failed) ↦ inl (panicked (at_check panic failed))
      ]

    prepared-parts :
        (blobs : List B) (successor : Option (CreatePlan B))
        → prepared encode req ≡ ok (blobs, successor)
        → (encode_events encode req.events ≡ ok blobs) × (plan_successor encode req ≡ ok successor)
    prepared-parts blobs successor h = ground arith

    found_cases :
        (blobs : List B) (successor : Option (CreatePlan B))
        → prepared encode req ≡ ok (blobs, successor)
        → encode_events encode req.events ≡ ok blobs
        → plan_successor encode req ≡ ok successor
        → s.closed ≡ false
        → Refused (append_history encode req s) ⊎ Committed
    unfolding append_history
    found_cases blobs successor prepares encoded planned running =
        elim (Option-cases (resolved_key (requested req) s)) [
          | inl e ↦ inl (refused not_found (simp (prepares, running, e)))
          | inr (key, resolved) ↦ elim (Option-cases (GoMap.get s.runs key)) [
            | inl e ↦ inl (refused not_found (simp (prepares, running, resolved, e)))
            | inr (run, found) ↦
                run_cases key run blobs successor prepares encoded planned running resolved found
          ]
        ]

    -- AppendHistory refuses the request and leaves the store, or commits.
    pub append_cases : Refused (append_history encode req s) ⊎ Committed
    unfolding append_history
    append_cases = elim (Outcome-cases (prepared encode req)) [
      | inl ((blobs, successor), h) ↦ elim (Bool-cases s.closed) [
        | inl closed ↦ inl (refused store_closed (simp (h, closed)))
        | inr running ↦
            let parts = prepared-parts blobs successor h in
            found_cases blobs successor h parts.0 parts.1 running
      ]
      | inr (inl (e, h)) ↦ inl (refused e (simp h))
      | inr (inr h) ↦ inl (panicked (simp h))
    ]
