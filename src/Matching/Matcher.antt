-- ===== src/Matching/Matcher.antt =====
-- The type Matcher of internal/matching/matching.go. `poll` is its critical sections: the first
-- finds a task or parks a waiter, and the others are the cases of its select. What it reports to
-- the interface Metrics, which returns nothing, is left out; the clock's reading is an argument. `add`
-- and `close` are each one step; the part of `add` after its check of `closed` is `offer_to`.
use skald.Prelude.{
  ℕ, String, string_eq, Bool, true, false, Option, none, some, List, ◌∷◌, ◌==◌, if◌then◌else◌,
  Outcome,
}
use skald.Prelude.Int.{ℤ, pos, pos_part, leb_ℤ, int_eq}
use skald.Prelude.GoMap
use skald.Prelude.GoMap.{GoMap}
use skald.History.Event.{Time, Duration}
use skald.Matching.Task.{Task, Kind, QueueKey, key_eq, Stats}
use skald.Matching.Queue.{
  Queue, Offered, handed, queued, refused, blocked, nil_waiter, new_queue, offer, take_backlog,
  park, receive, unpark, drain, stats, add_uint64,
}
pub mod Laws
pub mod Adds
pub mod Closing
pub mod Requests

-- Config without Clock and Metrics.
pub record Config : Type 0 where
  pub poll_timeout : Duration
  pub max_backlog : ℤ

pub record Matcher : Type 0 where
  pub poll_timeout : Duration
  pub max_backlog : ℤ
  pub queues : GoMap QueueKey Queue
  pub closed : Bool

abbrev pub default_poll_timeout : Duration
default_poll_timeout = pos 30000000000

abbrev pub default_max_backlog : ℤ
default_max_backlog = pos 50000

abbrev positive_or : ℤ → ℤ → ℤ
positive_or n default = if leb_ℤ n (pos 0) then default else n

-- New
unfoldable pub new : Config → Matcher
new cfg = record {
  poll_timeout = positive_or cfg.poll_timeout default_poll_timeout;
  max_backlog = positive_or cfg.max_backlog default_max_backlog;
  queues = GoMap.empty;
  closed = false;
}

-- The queue that queueFor returns.
abbrev pub queue_at : QueueKey → Matcher → Queue
queue_at key m = elim (GoMap.get m.queues key) [ none ↦ new_queue | some q ↦ q ]

abbrev pub set_queue : QueueKey → Queue → Matcher → Matcher
set_queue key q m = record m { queues = GoMap.put m.queues key q }

-- What `add` ends with: nil, one of its errors, or it blocks or panics as `offer` does.
pub data Added : Type 0 where
  added closed_matcher no_task_queue backlog_full stuck : Added

abbrev pub added_as : Offered → Added
added_as (handed depth) = added
added_as (queued depth) = added
added_as (refused depth) = backlog_full
added_as blocked = stuck
added_as nil_waiter = stuck

abbrev pub key_of : Kind → Task → QueueKey
key_of kind t = record { namespace = t.namespace; task_queue = t.task_queue; kind = kind }

-- `if t.EnqueuedAt.IsZero() { t.EnqueuedAt = m.clk.Now() }`
abbrev pub stamped : Time → Task → Task
stamped now t = if t.enqueued_at == pos 0 then record t { enqueued_at = now } else t

abbrev pub offer_to : QueueKey → Task → Matcher → Added × Matcher
offer_to key t m =
    let (result, q) = offer t (pos_part m.max_backlog) (queue_at key m) in
    (added_as result, set_queue key q m)

-- add
unfoldable pub add : Kind → Task → Time → Matcher → Added × Matcher
add kind t now m =
    if m.closed
    then (closed_matcher, m)
    else if t.task_queue == ""
    then (no_task_queue, m)
    else offer_to (key_of kind t) (stamped now t) m

-- Where a poll stands after its first critical sections: ended by an error or with a task, or
-- parked as a waiter.
pub data Polled : Type 0 where
  poll_closed poll_no_task_queue : Polled
  found : Task → Polled
  parked : ℕ → Polled

abbrev pub park_at : QueueKey → Matcher → Polled × Matcher
park_at key m = let ((w, pollers), q) = park (queue_at key m) in (parked w, set_queue key q m)

abbrev pub after_take : QueueKey → Option (Task × ℕ) × Queue → Matcher → Polled × Matcher
after_take key (some (t, depth), q) m = (found t, set_queue key q m)
after_take key (none, q) m = park_at key (set_queue key q m)

-- `poll` up to its select, if no other call comes between takeBacklog and park.
unfoldable pub poll_begin : QueueKey → Matcher → Polled × Matcher
poll_begin key m =
    if m.closed
    then (poll_closed, m)
    else if key.task_queue == ""
    then (poll_no_task_queue, m)
    else after_take key (take_backlog (queue_at key m)) m

-- The case `t := <-w.ch` of the select; without a task the case is not ready.
unfoldable pub poll_receive : QueueKey → ℕ → Matcher → Option Task × Matcher
poll_receive key w m = let (task, q) = receive w (queue_at key m) in (task, set_queue key q m)

abbrev count_timeout : Bool → Option Task → Queue → Queue
count_timeout true none q = record q { poll_timeouts = add_uint64 q.poll_timeouts 1 }
count_timeout _ _ q = q

-- The other cases of the select and what follows them: the timer fired, the context ended or the
-- matcher was closed.
unfoldable pub poll_give_up : Bool → QueueKey → ℕ → Matcher → Option Task × Matcher
poll_give_up timed_out key w m =
    let (task, q) = unpark w (queue_at key m) in
    (task, set_queue key (count_timeout timed_out task q) m)

-- Close
unfoldable pub close : Matcher → Matcher
close m =
    if m.closed
    then m
    else record m { closed = true; queues = GoMap.map_values (λ q. (drain q).1) m.queues }

abbrev no_stats : Stats
no_stats = record {
  backlog = 0;
  pollers = 0;
  sync_matches = 0;
  async_matches = 0;
  dropped = 0;
  poll_timeouts = 0;
}

-- Stats
unfoldable pub stats_of : QueueKey → Matcher → Stats
stats_of key m = elim (GoMap.get m.queues key) [ none ↦ no_stats | some q ↦ stats q ]
