-- ===== src/Execution/Append.antt =====
-- AppendEvent and Rebuild of internal/execution/mutablestate.go, and methods as actions: what a
-- method has written before it returns an error stays written.
use skald.Prelude.{
  ℕ, suc, String, Bool, true, false, Option, none, some, [], ◌∷◌, ◌++◌, if◌then◌else◌, Outcome, ok,
  err, panic,
}
use skald.Values.Payload.{WorkflowExecution}
use skald.Values.Status.{is_terminal_status}
use skald.History.Attributes.{Attributes}
use skald.History.Event.{Event, History, Time, next_event_id}
use skald.History.Validate.{validate}
use skald.Execution.State.{
  MutableState, Exec, ExecError, Transition, illegal, invalid_history, execution_closed,
  new_mutable_state,
}
use skald.Execution.Apply.{apply}

module _ {A : Type 0} where
  pub pure : A → Exec A
  pure a s = (ok a, s)

  pub refuse : Transition → Exec A
  refuse t s = (err (illegal t), s)

  pub gets : (MutableState → A) → Exec A
  gets f s = (ok (f s), s)

  -- A value, an error or a panic, computed with no change of state.
  pub lift : Outcome ExecError A → Exec A
  lift r s = (r, s)

  -- `*p`: a run-time panic on nil.
  unfoldable pub deref : Option A → Exec A
  unfolding pure
  deref none s = (panic, s)
  deref (some a) s = (ok a, s)

  -- `v, ok := ...; if !ok { return transitionErr(...) }`
  unfoldable pub found : Transition → Option A → Exec A
  unfolding pure refuse
  found t none = refuse t
  found t (some a) = pure a

pub refuse_when : Bool → Transition → Exec (Unit {0})
unfolding refuse pure
refuse_when true t = refuse t
refuse_when false t = pure tt

pub modify : (MutableState → MutableState) → Exec (Unit {0})
modify f s = (ok tt, f s)

-- ms.now()
pub read_now : Exec Time
read_now s = (ok (s.now s.reads), record s { reads = suc s.reads })

module _ {A B : Type 0} where
  abbrev pub continue : Outcome ExecError A → (A → Exec B) → Exec B
  continue (ok a) f s = f a s
  continue (err e) f s = (err e, s)
  continue panic f s = (panic, s)

  infixl 5 ◌>>=◌ ◌>>◌
  -- To open this is to open the simple actions too.
  unfoldable pub ◌>>=◌ : Exec A → (A → Exec B) → Exec B
  unfolding pure refuse gets lift deref found refuse_when modify read_now
  ◌>>=◌ m f s = continue (m s).0 f (m s).1

  abbrev pub ◌>>◌ : Exec A → Exec B → Exec B
  m >> n = m >>= λ _. n

-- ms.events = append(ms.events, ev)
abbrev pub push_event : Event → MutableState → MutableState
push_event ev s = record s { events = s.events ++ ev ∷ [] }

-- The end of AppendEvent, on what `apply` returned.
abbrev pub commit_event :
    Event → MutableState → Outcome ExecError MutableState → Outcome ExecError Event × MutableState
commit_event ev s (ok t) = (ok ev, push_event ev t)
commit_event ev s (err e) = (err e, s)
commit_event ev s panic = (panic, s)

abbrev pub stamped : Attributes → MutableState → Event
stamped attrs s = record { id = next_event_id s.events; time = s.now s.reads; attrs = attrs }

-- AppendEvent
unfoldable pub append_event : Attributes → Exec Event
append_event attrs s =
    if is_terminal_status s.status
    then (err (illegal execution_closed), s)
    else let ev = stamped attrs s in
      let t = record s { reads = suc s.reads } in commit_event ev t (apply t ev.id ev.time ev.attrs)

abbrev pub and_then :
    Event
    → Outcome ExecError MutableState
    → (MutableState → Outcome ExecError MutableState)
    → Outcome ExecError MutableState
and_then ev (ok t) f = f (push_event ev t)
and_then ev (err e) f = err e
and_then ev panic f = panic

-- The loop of Rebuild.
unfoldable pub replay : MutableState → History → Outcome ExecError MutableState
replay s [] = ok s
replay s (ev ∷ es) = and_then ev (apply s ev.id ev.time ev.attrs) (λ t. replay t es)

-- Rebuild
unfoldable pub rebuild :
    String → WorkflowExecution → History → (ℕ → Time) → Outcome ExecError MutableState
rebuild namespace exec h now = elim (validate h) [
  | ok t ↦ replay (new_mutable_state namespace exec now) h
  | err e ↦ err (invalid_history e)
  | panic ↦ panic
]
