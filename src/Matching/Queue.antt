-- ===== src/Matching/Queue.antt =====
-- The type queue of internal/matching/matching.go and its methods, each of which holds the queue's
-- mutex from its first line to its last. A waiter is an address: its position in `store`, the
-- waiters made so far. Its channel has room for one task.
use skald.Prelude.{
  ℕ, suc, ◌+◌, ◌%◌, ◌^◌, Bool, true, false, Option, none, some, List, [], ◌∷◌, ◌++◌, leb, length,
  get_elem?, set_elem, remove_one, if◌then◌else◌,
}
use skald.Matching.Task.{Task, Stats}
pub mod Cases
pub mod Invariant

pub record Waiter : Type 0 where
  pub buffer : Option Task
  pub settled : Bool

-- `counters` of type atomic.Uint64 wrap.
pub record Queue : Type 0 where
  pub backlog : List Task
  pub waiters : List ℕ
  pub store : List Waiter
  pub sync_matches : ℕ
  pub async_matches : ℕ
  pub dropped : ℕ
  pub poll_timeouts : ℕ

abbrev pub add_uint64 : ℕ → ℕ → ℕ
add_uint64 n k = (n + k) % 2 ^ 64

-- &queue{key: key}
abbrev pub new_queue : Queue
new_queue = record {
  backlog = [];
  waiters = [];
  store = [];
  sync_matches = 0;
  async_matches = 0;
  dropped = 0;
  poll_timeouts = 0;
}

abbrev pub idle : Waiter
idle = record { buffer = none; settled = false }

-- What `offer` ends with: handed to a poller, put on the backlog or refused, each with the depth of
-- the backlog; or it never returns, since the channel it sends on is full, or panics on a nil
-- waiter.
pub data Offered : Type 0 where
  handed queued refused : ℕ → Offered
  blocked nil_waiter : Offered

abbrev pub set_waiter : Queue → ℕ → Waiter → Queue
set_waiter q w x = record q { store = set_elem q.store w x }

-- `w.settled = true; w.ch <- t`
abbrev hand : ℕ → Waiter → Task → Queue → Offered × Queue
hand w x t q = elim x.buffer [
  | none ↦ (
    handed (length q.backlog),
    record (set_waiter q w (record { buffer = some t; settled = true })) {
      sync_matches = add_uint64 q.sync_matches 1;
    },
  )
  | some old ↦ (blocked, set_waiter q w (record x { settled = true }))
]

abbrev pub enqueue : Task → ℕ → Queue → Offered × Queue
enqueue t max q =
    if leb max (length q.backlog)
    then (refused (length q.backlog), record q { dropped = add_uint64 q.dropped 1 })
    else (queued (length q.backlog + 1), record q { backlog = q.backlog ++ t ∷ [] })

-- The loop of `offer` over the front of the list of waiters, then the backlog.
unfoldable pub offer_from : List ℕ → Task → ℕ → Queue → Offered × Queue
offer_from [] t max q = enqueue t max (record q { waiters = [] })
offer_from (w ∷ ws) t max q = elim (get_elem? q.store w) [
  | none ↦ (nil_waiter, record q { waiters = ws })
  | some x ↦ elim x.settled [
    | true ↦ offer_from ws t max q
    | false ↦ hand w x t (record q { waiters = ws })
  ]
]

-- offer
unfoldable pub offer : Task → ℕ → Queue → Offered × Queue
unfolding offer_from
offer t max q = offer_from q.waiters t max q

-- takeBacklog: the oldest task and the depth left.
unfoldable pub take_backlog : Queue → Option (Task × ℕ) × Queue
take_backlog q = elim q.backlog [
  | [] ↦ (none, q)
  | t ∷ ts ↦
      (some (t, length ts), record q { backlog = ts; async_matches = add_uint64 q.async_matches 1 })
]

-- park: the new waiter and the number of waiters.
unfoldable pub park : Queue → (ℕ × ℕ) × Queue
park q = (
  (length q.store, length q.waiters + 1),
  record q { waiters = q.waiters ++ length q.store ∷ []; store = q.store ++ idle ∷ [] },
)

-- `t := <-w.ch`, the case of a select that is ready if a task is buffered.
unfoldable pub receive : ℕ → Queue → Option Task × Queue
receive w q = elim (get_elem? q.store w) [
  | none ↦ (none, q)
  | some x ↦ (x.buffer, set_waiter q w (record x { buffer = none }))
]

abbrev unpark_found : ℕ → Waiter → Queue → Option Task × Queue
unpark_found w x q =
    if x.settled then (x.buffer, set_waiter q w (record x { buffer = none })) else (
      none,
      record (set_waiter q w (record x { settled = true })) { waiters = remove_one w q.waiters },
    )

-- unpark, without the number of waiters that it also returns.
unfoldable pub unpark : ℕ → Queue → Option Task × Queue
unpark w q = elim (get_elem? q.store w) [ none ↦ (none, q) | some x ↦ unpark_found w x q ]

-- pollerCount
abbrev pub poller_count : Queue → ℕ
poller_count q = length q.waiters

-- The loop of `drain`.
unfoldable pub settle_all : List ℕ → List Waiter → List Waiter
settle_all [] store = store
settle_all (w ∷ ws) store = elim (get_elem? store w) [
  | none ↦ settle_all ws store
  | some x ↦ settle_all ws (set_elem store w (record x { settled = true }))
]

-- drain
unfoldable pub drain : Queue → ℕ × Queue
unfolding settle_all
drain q = (
  length q.backlog,
  record q {
    backlog = [];
    dropped = add_uint64 q.dropped (length q.backlog);
    waiters = [];
    store = settle_all q.waiters q.store;
  },
)

-- stats
unfoldable pub stats : Queue → Stats
stats q = record {
  backlog = length q.backlog;
  pollers = length q.waiters;
  sync_matches = q.sync_matches;
  async_matches = q.async_matches;
  dropped = q.dropped;
  poll_timeouts = q.poll_timeouts;
}
