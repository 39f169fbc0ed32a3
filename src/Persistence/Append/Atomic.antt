-- ===== src/Persistence/Append/Atomic.antt =====
-- AppendHistory that returns an error.
use skald.Prelude.{
  ◌≡◌, ◌≢◌, inl, inr, refl, sym, ap, ◌∙◌, Bool, true, false, Option, none, some, ok, err, panic,
  arith, nat_eq,
}
use skald.History.Event.{Event}
use skald.Persistence.Record.{ExecutionRecord, AppendHistoryRequest}
use skald.Persistence.Store.{Store, run_key_eq, StoreError, clone_record}
use skald.Persistence.Plan.{CreatePlan, Result, apply_create}
use skald.Persistence.Create.Applied.{apply_create-ne-err}
use skald.Persistence.Append.{append_history, create_after, with_result, appended, write_append}
use skald.Persistence.Append.Cases.{append_cases}

module _ {B : Type 0} where
  with_result-ne-err :
      (rec : ExecutionRecord) (r : Result B ExecutionRecord)
      → ((e : StoreError) → r.0 ≢ err e)
      → (e : StoreError) → (with_result rec r).0 ≢ err e
  with_result-ne-err rec (ok x, s) h e = ground arith
  with_result-ne-err rec (err x, s) h e = absurd (h x refl)
  with_result-ne-err rec (panic, s) h e = ground arith

  create_after-ne-err :
      (o : Option (CreatePlan B)) (skip : Bool) (rec : ExecutionRecord) (s : Store B)
      (e : StoreError)
      → (create_after o skip rec s).0 ≢ err e
  create_after-ne-err none skip rec s e = ground arith
  create_after-ne-err (some p) true rec s e = ground arith
  create_after-ne-err (some p) false rec s e =
      with_result-ne-err rec (apply_create p s) (apply_create-ne-err p s) e

module _ {B : Type 0} (encode : Event → Option B) (req : AppendHistoryRequest) (s : Store B) where
  -- AppendHistory that returns an error leaves the store as it was: the run's events and record, the
  -- timers, the current runs and the successor.
  pub append_history_atomic :
      (e : StoreError)
      → (append_history encode req s).0 ≡ err e
      → (append_history encode req s).1 ≡ s
  append_history_atomic e h = elim (append_cases encode req s) [
    | inl refused ↦ refused.0
    | inr c ↦ absurd (
        create_after-ne-err c.successor c.skip (clone_record (appended c.run c.blobs req).rec)
          (write_append c.key c.run c.blobs req s) e (sym (ap (λ r. r.0) c.result) ∙ h))
  ]
