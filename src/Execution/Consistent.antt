-- ===== src/Execution/Consistent.antt =====
-- The well-formedness of a state: dense event ids, indexes that agree with the pending work, a
-- workflow task that is scheduled before it is started, and nothing pending in a closed run.
pub mod Parts
pub mod Apply
pub mod Append
pub mod Operations
use skald.Prelude.{
  ℕ, zero, suc, ◌+◌, ◌≤◌, ◌<◌, ◌≡◌, refl, ◌≢◌, String, true, Option, none, some, List, [], ◌∷◌,
  ◌++◌, length, arith, length-append, nat_eq, string_eq, ◌==◌, Bool-cases, inl, inr,
}
use text.Mathlib.TextEquality.{eq_iff}
use skald.Prelude.GoMap
use skald.Prelude.GoMap.{GoMap}
use skald.Values.Status.{is_terminal_status}
use skald.History.Event.{Event, History, next_event_id}
use skald.History.Dense.{IsDense}
use skald.Execution.State.{MutableState, ActivityState, TimerState, WorkflowTaskState, no_task}

-- The index by name and the table by event id describe the same pending entries, of which no
-- event id passes `n`.
pub record IsIndex {V : Type 0} (n : ℕ) (name : V → String) (table : GoMap ℕ V)
    (ids : GoMap String ℕ) : Type 0 where
  pub named :
      (k : String) (id : ℕ)
      → GoMap.get ids k ≡ some id
      → (v : V) × (GoMap.get table id ≡ some v) × (name v ≡ k)
  pub indexed :
      (id : ℕ) (v : V) → GoMap.get table id ≡ some v → (GoMap.get ids (name v) ≡ some id) × (id ≤ n)

abbrev pub IsTask : ℕ → WorkflowTaskState → Type 0
IsTask n t =
    (t.scheduled_event_id ≤ n)
    × (t.started_event_id ≤ n)
    × (t.scheduled_event_id ≡ 0 → t.started_event_id ≡ 0)

-- The event ids that a pending activity carries.
abbrev pub IsActivity : ℕ → ℕ → ActivityState → Type 0
IsActivity n id a = (a.scheduled_event_id ≡ id) × (a.started_event_id ≤ n)

-- All but the events, with ids up to `n`.
pub record IsBody (n : ℕ) (s : MutableState) : Type 0 where
  pub activities : IsIndex n (λ (a : ActivityState). a.activity_id) s.activities s.activity_ids
  pub timers : IsIndex n (λ (t : TimerState). t.timer_id) s.timers s.timer_ids
  pub each_activity :
      (id : ℕ) (a : ActivityState) → GoMap.get s.activities id ≡ some a → IsActivity n id a
  pub each_timer :
      (id : ℕ) (t : TimerState) → GoMap.get s.timers id ≡ some t → t.started_event_id ≡ id
  pub task : IsTask n s.workflow_task
  pub closed :
      is_terminal_status s.status ≡ true
      → (s.activities ≡ GoMap.empty) × (s.timers ≡ GoMap.empty) × (s.workflow_task ≡ no_task)

pub record IsConsistent (s : MutableState) : Type 0 where
  pub dense : IsDense 0 s.events
  pub body : IsBody (length s.events) s

module _ {V : Type 0} (name : V → String) where
  pub IsIndex-empty : (n : ℕ) → IsIndex n name GoMap.empty GoMap.empty
  IsIndex-empty n = record {
    named = λ k id h. cc (GoMap.get-empty {V = ℕ} k);
    indexed = λ id v h. cc (GoMap.get-empty {V = V} id);
  }

  pub IsIndex-mono :
      (n : ℕ) (table : GoMap ℕ V) (ids : GoMap String ℕ)
      → IsIndex n name table ids
      → IsIndex (suc n) name table ids
  IsIndex-mono n table ids x = record {
    named = x.named;
    indexed = λ id v h. ((x.indexed id v h).0, omega (arith, (x.indexed id v h).1));
  }

  -- A new entry, under an event id that is not in use yet and a name that is not.
  pub IsIndex-insert :
      (n : ℕ) (table : GoMap ℕ V) (ids : GoMap String ℕ) (v : V)
      → IsIndex n name table ids
      → GoMap.get ids (name v) ≡ none
      → IsIndex (suc n) name (GoMap.put table (suc n) v) (GoMap.put ids (name v) (suc n))
  IsIndex-insert n table ids v x fresh = record {
    named = λ k id h. elim (Bool-cases (name v == k)) [
      | inl same ↦ (
        v,
        ground (arith, GoMap.get-put ids (name v) k (suc n), GoMap.get-put table (suc n) id v),
        (eq_iff (name v) k).0 same,
      )
      | inr other ↦
          let (w, p, q) = x.named k id (ground (arith, GoMap.get-put ids (name v) k (suc n))) in
          (w, ground (arith, GoMap.get-put table (suc n) id v, x.indexed id w), q)
    ];
    indexed = λ id w h. ground (
      arith,
      GoMap.get-put table (suc n) id v,
      GoMap.get-put ids (name v) (name w) (suc n),
      eq_iff (name v) (name w),
      x.indexed id w,
    );
  }

  -- An entry replaced by one of the same name.
  pub IsIndex-replace :
      (n id : ℕ) (table : GoMap ℕ V) (ids : GoMap String ℕ) (old v : V)
      → IsIndex n name table ids
      → GoMap.get table id ≡ some old
      → name v ≡ name old
      → IsIndex n name (GoMap.put table id v) ids
  IsIndex-replace n id table ids old v x had same = record {
    named = λ k j h.
        let (w, p, q) = x.named k j h in
        elim (Bool-cases (id == j)) [
          | inl e ↦ (v, ground (arith, GoMap.get-put table id j v), ground arith)
          | inr e ↦ (w, ground (arith, GoMap.get-put table id j v), q)
        ];
    indexed = λ j w h. ground (arith, GoMap.get-put table id j v, x.indexed j w, x.indexed id old);
  }

  pub IsIndex-remove :
      (n id : ℕ) (table : GoMap ℕ V) (ids : GoMap String ℕ) (old : V)
      → IsIndex n name table ids
      → GoMap.get table id ≡ some old
      → IsIndex n name (GoMap.delete table id) (GoMap.delete ids (name old))
  IsIndex-remove n id table ids old x had = record {
    named = λ k j h.
        let (w, p, q) = x.named k j (ground (arith, GoMap.get-delete ids (name old) k)) in
        (
          w,
          ground (
            arith,
            GoMap.get-delete ids (name old) k,
            GoMap.get-delete table id j,
            eq_iff (name old) k,
          ),
          q,
        );
    indexed = λ j w h. ground (
      arith,
      GoMap.get-delete table id j,
      GoMap.get-delete ids (name old) (name w),
      eq_iff (name old) (name w),
      x.indexed j w,
      x.indexed id old,
    );
  }
