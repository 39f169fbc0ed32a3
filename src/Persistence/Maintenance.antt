-- ===== src/Persistence/Maintenance.antt =====
-- DeleteTimers and Close of internal/persistence/memory/memory.go.
use skald.Prelude.{List, [], ◌∷◌, true, Outcome, ok, err, if◌then◌else◌}
use skald.Persistence.Record.{TimerKey}
use skald.Persistence.Store.{Store, RunKey, StoreError, store_closed, new_store, delete_timer}

abbrev run_of : TimerKey → RunKey
run_of k = record { namespace = k.namespace; workflow_id = k.workflow_id; run_id = k.run_id }

module _ {B : Type 0} where
  -- The loop of DeleteTimers: a timer that is gone is no error.
  unfoldable pub delete_each : List TimerKey → Store B → Store B
  delete_each [] s = s
  delete_each (k ∷ ks) s = delete_each ks (delete_timer (run_of k) k s)

  unfoldable pub delete_timers : List TimerKey → Store B → Outcome StoreError (Unit {0}) × Store B
  delete_timers ks s = if s.closed then (err store_closed, s) else (ok tt, delete_each ks s)

  -- Close
  unfoldable pub close_store : Store B → Store B
  close_store s = record new_store { closed = true }
