-- ===== src/History/Event.antt =====
-- The struct Event of pkg/history/event.go, and the accessors of pkg/history/history.go. A time is
-- the nanoseconds since the zero time.Time.
use skald.Prelude.{
  ℕ, zero, suc, ◌+◌, Bool, false, Option, none, some, List, [], ◌∷◌, ltb, ◌==◌, ◌||◌, nat_eq,
  if◌then◌else◌, length, get_elem?,
}
use skald.Prelude.Int.{ℤ}
use skald.History.EventType.{is_terminal}
use skald.History.Attributes.{
  Attributes, WorkflowExecutionStarted, workflow_execution_started, type_of,
}

abbrev pub Time : Type 0
Time = ℤ

abbrev pub Duration : Type 0
Duration = ℤ

pub record Event : Type 0 where
  pub id : ℕ
  pub time : Time
  pub attrs : Attributes

abbrev pub History : Type 0
History = List Event

abbrev pub last? : History → Option Event
last? [] = none
last? (e ∷ []) = some e
last? (e ∷ f ∷ es) = last? (f ∷ es)

-- History.LastEventID
unfoldable pub last_event_id : History → ℕ
last_event_id h = elim (last? h) [ none ↦ 0 | some e ↦ e.id ]

-- History.NextEventID
unfoldable pub next_event_id : History → ℕ
unfolding last_event_id
next_event_id h = last_event_id h + 1

get_at : ℕ → Option Event → Option Event
get_at id none = none
get_at id (some e) = if e.id == id then some e else none

elem_before : History → ℕ → Option Event
elem_before h zero = none
elem_before h (suc i) = get_elem? h i

-- History.Get: h[id-1] for 1 ≤ id ≤ len(h).
unfoldable pub get_event : History → ℕ → Option Event
unfolding get_at elem_before
get_event h id = if ltb id 1 || ltb (length h) id then none else get_at id (elem_before h id)

as_started : Attributes → Option WorkflowExecutionStarted
as_started (workflow_execution_started a) = some a
as_started _ = none

-- History.StartedAttributes
unfoldable pub started_attributes : History → Option WorkflowExecutionStarted
unfolding as_started
started_attributes [] = none
started_attributes (e ∷ es) = as_started e.attrs

-- History.Terminated
unfoldable pub is_terminated_history : History → Bool
is_terminated_history h = elim (last? h) [ none ↦ false | some e ↦ is_terminal (type_of e.attrs) ]
