-- ===== src/Persistence/Timers.antt =====
-- The functions on the timer index leave all else in the store alone.
use skald.Prelude.{◌≡◌, refl, List, [], ◌∷◌, arith}
use skald.Persistence.Record.{TimerRecord, TimerKey}
use skald.Persistence.Store.{
  Store, RunKey, upsert_timer, upsert_timers, delete_timer, delete_timers_of, drop_run_timers,
}

module _ {B : Type 0} where
  -- The stores differ in their timers at most.
  pub record SameRuns (s t : Store B) : Type 0 where
    pub closed : t.closed ≡ s.closed
    pub runs : t.runs ≡ s.runs
    pub current : t.current ≡ s.current
    pub dedup : t.dedup ≡ s.dedup

  pub SameRuns-trans : {s t u : Store B} → SameRuns s t → SameRuns t u → SameRuns s u
  SameRuns-trans h k = ground (arith, h.closed, h.runs, h.current, h.dedup)

  pub upsert_timers-SameRuns :
      (key : RunKey) (trs : List TimerRecord) (s : Store B) → SameRuns s (upsert_timers key trs s)
  unfolding upsert_timers upsert_timer
  upsert_timers-SameRuns key [] s = record {
    closed = refl;
    runs = refl;
    current = refl;
    dedup = refl;
  }
  upsert_timers-SameRuns key (tr ∷ trs) s =
      SameRuns-trans (record { closed = refl; runs = refl; current = refl; dedup = refl })
        (upsert_timers-SameRuns key trs (upsert_timer key tr s))

  pub delete_timers_of-SameRuns :
      (key : RunKey) (tks : List TimerKey) (s : Store B) → SameRuns s (delete_timers_of key tks s)
  unfolding delete_timers_of delete_timer
  delete_timers_of-SameRuns key [] s = record {
    closed = refl;
    runs = refl;
    current = refl;
    dedup = refl;
  }
  delete_timers_of-SameRuns key (tk ∷ tks) s =
      SameRuns-trans (record { closed = refl; runs = refl; current = refl; dedup = refl })
        (delete_timers_of-SameRuns key tks (delete_timer key tk s))

  pub drop_run_timers-SameRuns : (key : RunKey) (s : Store B) → SameRuns s (drop_run_timers key s)
  unfolding drop_run_timers
  drop_run_timers-SameRuns key s = record {
    closed = refl;
    runs = refl;
    current = refl;
    dedup = refl;
  }
