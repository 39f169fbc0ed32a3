-- ===== src/Matching/Calls.antt =====
-- The critical sections of a queue as data, one constructor for each method that changes it, and a
-- ledger of the tasks that went in and out. `max` is the matcher's maxBacklog.
use skald.Prelude.{ℕ, Option, none, some, List, [], ◌∷◌, ◌++◌}
use skald.Matching.Task.{Task}
use skald.Matching.Queue.{
  Queue, Offered, handed, queued, refused, blocked, nil_waiter, offer, take_backlog, park, receive,
  unpark, drain,
}
pub mod Keeps
pub mod Conserved
pub mod Ordered
pub mod Delivered
pub mod Gap

pub data Call : Type 0 where
  offers : Task → Call
  takes parks drains : Call
  receives gives_up : ℕ → Call

-- What callers saw: the tasks accepted, those that joined the backlog, those returned to a poller,
-- those that left the backlog at its front, and those discarded.
pub record Ledger : Type 0 where
  pub accepted : List Task
  pub joined : List Task
  pub returned : List Task
  pub taken : List Task
  pub discarded : List Task

abbrev pub new_ledger : Ledger
new_ledger = record { accepted = []; joined = []; returned = []; taken = []; discarded = [] }

abbrev pub note_offer : Task → Offered → Ledger → Ledger
note_offer t (handed n) l = record l { accepted = l.accepted ++ t ∷ [] }
note_offer t (queued n) l = record l {
  accepted = l.accepted ++ t ∷ [];
  joined = l.joined ++ t ∷ [];
}
note_offer t (refused n) l = l
note_offer t blocked l = l
note_offer t nil_waiter l = l

abbrev pub note_return : Option Task → Ledger → Ledger
note_return none l = l
note_return (some t) l = record l { returned = l.returned ++ t ∷ [] }

abbrev pub note_take : Option (Task × ℕ) → Ledger → Ledger
note_take none l = l
note_take (some (t, depth)) l = record l {
  returned = l.returned ++ t ∷ [];
  taken = l.taken ++ t ∷ [];
}

abbrev pub note_drain : List Task → Ledger → Ledger
note_drain b l = record l { discarded = l.discarded ++ b; taken = l.taken ++ b }

-- One call: the queue after it.
unfoldable pub step : ℕ → Call → Queue → Queue
step max (offers t) q = (offer t max q).1
step max takes q = (take_backlog q).1
step max parks q = (park q).1
step max (receives w) q = (receive w q).1
step max (gives_up w) q = (unpark w q).1
step max drains q = (drain q).1

-- One call: the ledger after it.
unfoldable pub record_call : ℕ → Call → Queue → Ledger → Ledger
record_call max (offers t) q l = note_offer t (offer t max q).0 l
record_call max takes q l = note_take (take_backlog q).0 l
record_call max parks q l = l
record_call max (receives w) q l = note_return (receive w q).0 l
record_call max (gives_up w) q l = note_return (unpark w q).0 l
record_call max drains q l = note_drain q.backlog l

unfoldable pub run : ℕ → List Call → Queue → Queue
run max [] q = q
run max (c ∷ cs) q = run max cs (step max c q)

unfoldable pub record_calls : ℕ → List Call → Queue → Ledger → Ledger
record_calls max [] q l = l
record_calls max (c ∷ cs) q l = record_calls max cs (step max c q) (record_call max c q l)
