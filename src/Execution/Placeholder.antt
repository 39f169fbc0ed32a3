-- ===== src/Execution/Placeholder.antt =====
-- The run id that ContinueAsNew writes (internal/execution/transitions.go), and History.Validate.
use skald.Prelude.{
  ℕ, suc, ◌≡◌, ◌≢◌, refl, ap, fun_ext, String, not, [], ◌∷◌, ◌++◌, length, length-append, ltb, ok,
  refuse_if, ◌>>=◌, ◌>>◌, arith, string_eq,
}
use text.Mathlib.TextEquality.{eq_iff}
use skald.History.Attributes.{WorkflowExecutionContinuedAsNew, workflow_execution_continued_as_new}
use skald.History.Event.{Event, History}
use skald.History.Validate.{
  Refs, no_refs, too_many_events, first_not_started, max_history_events, is_started, check_event,
  check_events, validate, validate_references,
}
use skald.Execution.Closing.{pending_run_id_placeholder}

-- The event of a run that continued as the run `run_id`.
abbrev pub continued_as : String → Event → WorkflowExecutionContinuedAsNew → Event
continued_as run_id ev a = record ev {
  attrs = workflow_execution_continued_as_new (record a { new_run_id = run_id });
}

module _ (ev : Event) (a : WorkflowExecutionContinuedAsNew) (run_id : String)
    (named : run_id ≢ "") where
  check_event-continued_as :
      (n i : ℕ) (r : Refs)
      → check_event n i (continued_as pending_run_id_placeholder ev a) r
        ≡ check_event n i (continued_as run_id ev a) r
  unfolding check_event validate_references
  check_event-continued_as n i r = ground (arith, named, eq_iff run_id "")

  check_events-continued_as :
      (h : History) (n i : ℕ) (r : Refs)
      → check_events n i (h ++ continued_as pending_run_id_placeholder ev a ∷ []) r
        ≡ check_events n i (h ++ continued_as run_id ev a ∷ []) r
  unfolding check_events
  check_events-continued_as [] n i r =
      ap (λ o. o >>= check_events n (suc i) []) (check_event-continued_as n i r)
  check_events-continued_as (e ∷ h) n i r =
      ap (λ f. check_event n i e r >>= f) (fun_ext λ q. check_events-continued_as h n (suc i) q)

length-continued_as :
    (h : History) (ev : Event) (a : WorkflowExecutionContinuedAsNew) (run_id : String)
    → length (h ++ continued_as pending_run_id_placeholder ev a ∷ [])
      ≡ length (h ++ continued_as run_id ev a ∷ [])
length-continued_as h ev a run_id = omega (
  arith,
  length-append h (continued_as pending_run_id_placeholder ev a ∷ []),
  length-append h (continued_as run_id ev a ∷ []),
)

-- Validate treats the placeholder that ContinueAsNew writes like any other run id that is not
-- empty: a history that ends with the event of a run that continued as new passes, or fails with the
-- same error, whether its successor was patched in or not.
pub validate_placeholder :
    (h : History) (ev : Event) (a : WorkflowExecutionContinuedAsNew) (run_id : String)
    → run_id ≢ ""
    → validate (h ++ continued_as pending_run_id_placeholder ev a ∷ [])
      ≡ validate (h ++ continued_as run_id ev a ∷ [])
unfolding validate
validate_placeholder [] ev a run_id named = refl
validate_placeholder (e ∷ h) ev a run_id named = rw (length-continued_as h ev a run_id) (
    ap
      (λ o.
        refuse_if (ltb max_history_events (length (e ∷ h ++ continued_as run_id ev a ∷ [])))
          too_many_events
        >> (refuse_if (not (is_started e.attrs)) first_not_started >> (o >>= λ _. ok tt)))
      (check_events-continued_as ev a run_id named (e ∷ h)
        (length (e ∷ h ++ continued_as run_id ev a ∷ [])) 0 no_refs))
