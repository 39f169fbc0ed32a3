-- ===== src/Execution/Replay/Patch.antt =====
-- PatchContinuedAsNewRunID of internal/execution/transitions.go and the replay of the history.
use skald.Prelude.{
  ◌≡◌, ap, ◌∙◌, sym, subst, String, Option, none, some, [], ◌∷◌, ◌++◌, append_assoc, ok, arith,
  Option-cases, inl, inr,
}
use skald.History.Event.{Event, History}
use skald.Execution.State.{MutableState, new_mutable_state}
use skald.Execution.Apply.{apply}
use skald.Execution.Append.{replay, push_event, ◌>>=◌}
use skald.Execution.Transitions.{patch_last, patch_continued_as_new_run_id, set_events}
use skald.Execution.Replay.{IsSynced, with_clock, apply_frame, Outcome-cases}

-- The last event alone: `apply` does not read the successor's run id.
replay-patch_one :
    (run_id : String) (u v : MutableState) (e : Event) (h' : History)
    → replay u (e ∷ []) ≡ ok v
    → patch_last run_id (e ∷ []) ≡ some h'
    → replay u h' ≡ ok (record v { events = u.events ++ h' })
unfolding replay apply
replay-patch_one run_id u v e h' p q = ground arith

replay-patch :
    (run_id : String) (u v : MutableState) (h h' : History)
    → replay u h ≡ ok v
    → patch_last run_id h ≡ some h'
    → replay u h' ≡ ok (record v { events = u.events ++ h' })
unfolding replay
replay-patch run_id u v [] h' p q = cc
replay-patch run_id u v (e ∷ []) h' p q = replay-patch_one run_id u v e h' p q
replay-patch run_id u v (e ∷ f ∷ es) h' p q = elim (Option-cases (patch_last run_id (f ∷ es))) [
  | inl k ↦ absurd (ground arith)
  | inr (g, k) ↦ elim (Outcome-cases (apply u e.id e.time e.attrs)) [
    | inl (t, a) ↦
        let frame = apply_frame u t e.id e.time e.attrs a in
        let rest : replay (push_event e t) (f ∷ es) ≡ ok v = cc in
        let same : h' ≡ e ∷ g = cc in
        let there : (push_event e t).events ++ g ≡ u.events ++ e ∷ g =
          append_assoc t.events (e ∷ []) g ∙ ap (λ es. es ++ e ∷ g) frame.events in
        rw (same, a)
          (replay-patch run_id (push_event e t) v (f ∷ es) g rest k
            ∙ ap (λ es. ok (record v { events = es })) there)
    | inr (inl (x, a)) ↦ absurd (ground arith)
    | inr (inr a) ↦ absurd (ground arith)
  ]
]

patch_cases :
    (s : MutableState) (run_id : String) (o : Option History)
    → patch_last run_id s.events ≡ o
    → (patch_continued_as_new_run_id run_id s).1
      ≡ elim o [ none ↦ s | some h ↦ record s { events = h } ]
unfolding patch_continued_as_new_run_id set_events ◌>>=◌
patch_cases s run_id none e = ground arith
patch_cases s run_id (some h) e = ground arith

-- PatchContinuedAsNewRunID, succeeding or not, keeps this of a state: replaying its history gives
-- the state, up to the clock and the version of the store.
pub patch_continued_as_new_run_id-IsSynced :
    (s : MutableState) (run_id : String)
    → IsSynced s
    → IsSynced (patch_continued_as_new_run_id run_id s).1
unfolding new_mutable_state
patch_continued_as_new_run_id-IsSynced s run_id h =
    elim (Option-cases (patch_last run_id s.events)) [
      | inl k ↦ subst IsSynced (sym (patch_cases s run_id none k)) h
      | inr (g, k) ↦ subst IsSynced (sym (patch_cases s run_id (some g) k)) (record {
        replays = λ c.
            replay-patch run_id (new_mutable_state s.namespace s.execution c) (with_clock c s)
              s.events g (h.replays c) k;
      })
    ]
