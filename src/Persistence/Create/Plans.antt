-- ===== src/Persistence/Create/Plans.antt =====
-- Plans of creates, and the requests that they come from.
use skald.Prelude.{
  ◌≡◌, ◌≢◌, inl, inr, ap, string_eq, Option, List, [], ◌∷◌, ok, err, arith, Outcome-cases,
}
use skald.Prelude.Int.{int_eq}
use skald.History.Event.{Event, History}
use skald.Persistence.Record.{ExecutionRecord, TimerRecord, CreateExecutionRequest}
use skald.Persistence.Store.{
  Store, RunKey, run_key_eq, workflow_key_eq, dedup_key_eq, already_started, key_of,
}
use skald.Persistence.Checks.{validate_timers, validate_create, normalized}
use skald.Persistence.Plan.{CreatePlan}
use skald.Persistence.Create.{encode_events, plan_create, planned, create_execution}

module _ {B : Type 0} (encode : Event → Option B) where
  encode_events-ne-started : (evs : History) → encode_events encode evs ≢ err already_started
  unfolding encode_events
  encode_events-ne-started [] h = cc
  encode_events-ne-started (ev ∷ evs) h = ground (arith, encode_events-ne-started evs)

  validate_timers-ne-started :
      (k : RunKey) (trs : List TimerRecord) → validate_timers k trs ≢ err already_started
  unfolding validate_timers
  validate_timers-ne-started k [] h = cc
  validate_timers-ne-started k (timer ∷ trs) h = ground (arith, validate_timers-ne-started k trs)

  validate_create-ne-started :
      (req : CreateExecutionRequest) → validate_create req ≢ err already_started
  unfolding validate_create
  validate_create-ne-started req = ground arith

  pub plan_create-ne-started :
      (req : CreateExecutionRequest) → plan_create encode req ≢ err already_started
  unfolding plan_create
  plan_create-ne-started req h = elim (Outcome-cases (validate_create req)) [
    | inl (rec, e) ↦ ground (
      arith,
      e,
      encode_events-ne-started req.events,
      validate_timers-ne-started (key_of rec) req.timers,
    )
    | inr (inl (x, e)) ↦ ground (arith, e, validate_create-ne-started req)
    | inr (inr e) ↦ ground (arith, e)
  ]

  -- What a plan takes over from its request.
  pub record Plans (req : CreateExecutionRequest) (p : CreatePlan B) : Type 0 where
    pub rec : p.rec ≡ normalized req.rec req.events
    pub request_id : p.request_id ≡ req.request_id
    pub reuse : p.reuse ≡ req.reuse_policy

  validate_create-rec :
      (req : CreateExecutionRequest) (rec : ExecutionRecord)
      → validate_create req ≡ ok rec
      → rec ≡ normalized req.rec req.events
  unfolding validate_create
  validate_create-rec req rec h = ground arith

  pub plan_create-Plans :
      (req : CreateExecutionRequest) (p : CreatePlan B)
      → plan_create encode req ≡ ok p
      → Plans req p
  unfolding plan_create
  plan_create-Plans req p h = elim (Outcome-cases (validate_create req)) [
    | inl (rec, e) ↦ ground (arith, e, validate_create-rec req rec)
    | inr (inl (x, e)) ↦ absurd (ground (arith, e))
    | inr (inr e) ↦ absurd (ground (arith, e))
  ]

  pub create_execution-plan :
      (req : CreateExecutionRequest) (p : CreatePlan B) (s : Store B)
      → plan_create encode req ≡ ok p
      → create_execution encode req s ≡ planned encode (ok p) s
  unfolding create_execution
  create_execution-plan req p s h = ap (λ o. planned encode o s) h

  pub accepted_plan :
      (req : CreateExecutionRequest) (s : Store B) (rec : ExecutionRecord)
      → (create_execution encode req s).0 ≡ ok rec
      → (p : CreatePlan B) × (plan_create encode req ≡ ok p)
  unfolding create_execution
  accepted_plan req s rec h = elim (Outcome-cases (plan_create encode req)) [
    | inl (p, e) ↦ (p, e)
    | inr (inl (x, e)) ↦ absurd (ground (arith, e))
    | inr (inr e) ↦ absurd (ground (arith, e))
  ]
