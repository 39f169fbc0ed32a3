-- ===== src/Execution/Replay.antt =====
-- Replaying histories: what Rebuild and AppendEvent of internal/execution/mutablestate.go share.
pub mod Recovery
pub mod Patch
use skald.Prelude.{
  ℕ, suc, ◌≡◌, refl, sym, ap, ◌∙◌, String, Bool, true, false, Option, none, some, List, [], ◌∷◌,
  ◌++◌, ◌⊎◌, inl, inr, if◌then◌else◌, Outcome, ok, err, panic, arith, Bool-cases,
}
use skald.Values.Status.{is_terminal_status}
use skald.History.Attributes.{
  Attributes, no_attributes, workflow_execution_started, workflow_execution_completed,
  workflow_execution_failed, workflow_execution_timed_out, workflow_execution_canceled,
  workflow_execution_terminated, workflow_execution_continued_as_new,
  workflow_execution_cancel_requested, workflow_execution_signaled, workflow_task_scheduled,
  workflow_task_started, workflow_task_completed, workflow_task_failed, workflow_task_timed_out,
  activity_task_scheduled, activity_task_started, activity_task_completed, activity_task_failed,
  activity_task_timed_out, activity_task_cancel_requested, activity_task_canceled, timer_started,
  timer_fired, timer_canceled, marker_recorded,
}
use skald.History.Event.{Event, History, Time}
use skald.Execution.State.{MutableState, ExecError, new_mutable_state}
use skald.Execution.Apply.{apply}
use skald.Execution.Append.{
  append_event, push_event, commit_event, stamped, and_then, replay, read_now, ◌>>=◌,
}
use skald.Execution.Keeps.{Keeps}

-- The parts of a state that its history says nothing of: the clock, its readings, the version.
abbrev pub with_clock : (ℕ → Time) → MutableState → MutableState
with_clock c s = record s { now = c; reads = 0; version = 0 }

-- Replaying the events of `s` from the empty state gives `s`, under any clock.
pub record IsSynced (s : MutableState) : Type 0 where
  pub replays :
      (c : ℕ → Time)
      → replay (new_mutable_state s.namespace s.execution c) s.events ≡ ok (with_clock c s)

abbrev map_state :
    (MutableState → MutableState) → Outcome ExecError MutableState → Outcome ExecError MutableState
map_state f (ok s) = ok (f s)
map_state f (err e) = err e
map_state f panic = panic

-- `apply` reads neither the clock nor the version.
apply-with_clock :
    (s : MutableState) (c : ℕ → Time) (id : ℕ) (time : Time) (a : Attributes)
    → apply (with_clock c s) id time a ≡ map_state (with_clock c) (apply s id time a)
unfolding apply
apply-with_clock s c id time no_attributes = refl
apply-with_clock s c id time (marker_recorded a) = refl
apply-with_clock s c id time _ = ground arith

-- What `apply` leaves alone.
pub record SameFrame (s u : MutableState) : Type 0 where
  pub namespace : u.namespace ≡ s.namespace
  pub execution : u.execution ≡ s.execution
  pub events : u.events ≡ s.events
  pub now : u.now ≡ s.now
  pub reads : u.reads ≡ s.reads

pub apply_frame :
    (s u : MutableState) (id : ℕ) (time : Time) (a : Attributes)
    → apply s id time a ≡ ok u
    → SameFrame s u
unfolding apply
apply_frame s u id time no_attributes h = cc
apply_frame s u id time (marker_recorded a) h = ground arith
apply_frame s u id time _ h = ground arith

-- One event of a replay, with the rest given as a function.
and_then_map :
    (t w : MutableState) (f g : MutableState → Outcome ExecError MutableState) (e : Event)
    (r : Outcome ExecError MutableState)
    → ((v : MutableState) → f v ≡ ok t → g v ≡ ok w)
    → and_then e r f ≡ ok t
    → and_then e r g ≡ ok w
and_then_map t w f g e (ok v) k p = k (push_event e v) p
and_then_map t w f g e (err x) k p = cc
and_then_map t w f g e panic k p = cc

replay-append :
    (s t u : MutableState) (es : History) (ev : Event)
    → replay s es ≡ ok t
    → apply t ev.id ev.time ev.attrs ≡ ok u
    → replay s (es ++ ev ∷ []) ≡ ok (push_event ev u)
unfolding replay
replay-append s t u [] ev h k = ground arith
replay-append s t u (e ∷ es) ev h k =
    and_then_map t (push_event ev u) (λ v. replay v es) (λ v. replay v (es ++ ev ∷ [])) e
      (apply s e.id e.time e.attrs) (λ v p. replay-append v t u es ev p k) h

pub Outcome-cases :
    (r : Outcome ExecError MutableState)
    → ((u : MutableState) × (r ≡ ok u)) ⊎ ((e : ExecError) × (r ≡ err e)) ⊎ (r ≡ panic)
Outcome-cases (ok u) = inl (u, refl)
Outcome-cases (err e) = inr (inl (e, refl))
Outcome-cases panic = inr (inr refl)

apply-with_clock_ok :
    (s u : MutableState) (c : ℕ → Time) (n : ℕ) (id : ℕ) (time : Time) (a : Attributes)
    → apply (record s { reads = n }) id time a ≡ ok u
    → apply (with_clock c s) id time a ≡ ok (with_clock c u)
apply-with_clock_ok s u c n id time a h =
    apply-with_clock (record s { reads = n }) c id time a ∙ ap (map_state (with_clock c)) h

commit-IsSynced :
    (s u : MutableState) (n : ℕ) (ev : Event)
    → IsSynced s
    → apply (record s { reads = n }) ev.id ev.time ev.attrs ≡ ok u
    → IsSynced (push_event ev u)
commit-IsSynced s u n ev h k =
    let frame = apply_frame (record s { reads = n }) u ev.id ev.time ev.attrs k in
    record {
      replays = λ c. cc (
        frame.namespace,
        frame.execution,
        frame.events,
        replay-append (new_mutable_state s.namespace s.execution c) (with_clock c s)
            (with_clock c u) s.events ev (h.replays c)
            (apply-with_clock_ok s u c n ev.id ev.time ev.attrs k),
      );
    }

append_open-IsSynced :
    (s : MutableState) (n : ℕ) (ev : Event) (r : Outcome ExecError MutableState)
    → IsSynced s
    → apply (record s { reads = n }) ev.id ev.time ev.attrs ≡ r
    → IsSynced (commit_event ev (record s { reads = n }) r).1
append_open-IsSynced s n ev (ok u) h k = commit-IsSynced s u n ev h k
append_open-IsSynced s n ev (err e) h k = record { replays = h.replays }
append_open-IsSynced s n ev panic h k = record { replays = h.replays }

pub append_event-IsSynced : (attrs : Attributes) → Keeps IsSynced (append_event attrs)
unfolding append_event
append_event-IsSynced attrs = record {
  at = λ s h. elim (Bool-cases (is_terminal_status s.status)) [
    | inl closed ↦ rw closed h
    | inr open_ ↦ rw open_ (append_open-IsSynced s (suc s.reads) (stamped attrs s) _ h refl)
  ];
}

pub read_now-IsSynced : Keeps IsSynced read_now
unfolding ◌>>=◌
read_now-IsSynced = record { at = λ s h. record { replays = h.replays } }
