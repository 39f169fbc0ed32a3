-- ===== src/Persistence/Reads.antt =====
-- GetExecution and ReadHistory of internal/persistence/memory/memory.go.
use skald.Prelude.{
  ℕ, ◌-◌, string_eq, Option, none, some, List, [], ◌∷◌, ◌==◌, ◌||◌, nat_eq, ltb, length, drop, take,
  if◌then◌else◌, Outcome, ok, err, ◌>>=◌, or_refuse,
}
use skald.Prelude.Int.{ℤ, pos, pos_part, ltb_ℤ, leb_ℤ}
use skald.Prelude.GoMap
use skald.History.Event.{Event, History}
use skald.Persistence.Record.{ExecutionRecord}
use skald.Persistence.Store.{
  Run, Store, RunKey, run_key_eq, workflow_key_eq, StoreError, not_found, store_closed,
  decode_failed, clone_record,
}

abbrev pub from_one : ℤ → ℕ
from_one from = if ltb_ℤ from (pos 1) then 1 else pos_part from

abbrev pub up_to : ℕ → ℤ → ℕ
up_to last to = if leb_ℤ to (pos 0) || ltb last (pos_part to) then last else pos_part to

module _ {B : Type 0} where
  -- The key that lookup reads at: an empty run id stands for the current run.
  abbrev pub resolved_key : RunKey → Store B → Option RunKey
  resolved_key k s =
      if k.run_id == ""
      then GoMap.get s.current (record { namespace = k.namespace; workflow_id = k.workflow_id })
      else some k

  abbrev stored_at : Option RunKey → Store B → Outcome StoreError (Run B)
  stored_at none s = err not_found
  stored_at (some key) s = or_refuse (GoMap.get s.runs key) not_found

  -- lookup
  unfoldable pub lookup : RunKey → Store B → Outcome StoreError (Run B)
  lookup k s = stored_at (resolved_key k s) s

  -- GetExecution
  unfoldable pub get_execution : RunKey → Store B → Outcome StoreError ExecutionRecord
  get_execution k s =
      if s.closed then err store_closed else (lookup k s >>= λ r. ok (clone_record r.rec))

  -- selectRange: events[from-1 : to] after both ends are clamped.
  unfoldable pub select_range : List B → ℤ → ℤ → List B
  select_range events from to =
      if ltb (length events) (from_one from) || ltb (up_to (length events) to) (from_one from)
      then []
      else drop (from_one from - 1) (take (up_to (length events) to) events)

module _ {B : Type 0} (decode : B → Option Event) where
  unfoldable pub decode_events : List B → Outcome StoreError History
  decode_events [] = ok []
  decode_events (b ∷ bs) = elim (decode b) [
    | none ↦ err decode_failed
    | some ev ↦ decode_events bs >>= λ evs. ok (ev ∷ evs)
  ]

  -- ReadHistory
  unfoldable pub read_history : RunKey → ℤ → ℤ → Store B → Outcome StoreError History
  read_history k from to s =
      if s.closed
      then err store_closed
      else (lookup k s >>= λ r. decode_events (select_range r.events from to))
