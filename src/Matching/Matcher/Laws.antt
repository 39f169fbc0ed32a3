-- ===== src/Matching/Matcher/Laws.antt =====
-- The queues of a matcher: each is well-formed, and a call on one leaves the others alone.
use skald.Prelude.{
  ℕ, ◌≡◌, inl, inr, refl, subst, string_eq, Bool, true, false, Option, none, some, ◌==◌, Bool-cases,
  Option-cases, arith,
}
use skald.Prelude.Int.{pos_part, int_eq}
use skald.Prelude.GoMap
use skald.Prelude.GoMap.{GoMap}
use skald.History.Event.{Time}
use skald.Matching.Task.{Task, Kind, QueueKey, key_eq}
use skald.Matching.Queue.{Queue, offer, take_backlog, park, receive, unpark, new_queue}
use skald.Matching.Queue.Invariant.{
  IsQueue, IsQueue-same, offer-IsQueue, take_backlog-IsQueue, park-IsQueue, receive-IsQueue,
  unpark-IsQueue,
}
use skald.Matching.Calls.Keeps.{new_queue-IsQueue}
use skald.Matching.Matcher.{
  Matcher, closed_matcher, no_task_queue, poll_closed, queue_at, set_queue, key_of, stamped, add,
  offer_to, poll_begin, after_take, park_at, poll_receive, poll_give_up, count_timeout,
}

pub record IsMatcher (m : Matcher) : Type 0 where
  pub well : (k : QueueKey) (q : Queue) → GoMap.get m.queues k ≡ some q → IsQueue q

module _ (k : QueueKey) (m : Matcher) where
  pub queue_at-none : GoMap.get m.queues k ≡ none → queue_at k m ≡ new_queue
  queue_at-none e = ground (arith, e)

  pub queue_at-some : (q : Queue) → GoMap.get m.queues k ≡ some q → queue_at k m ≡ q
  queue_at-some q e = ground (arith, e)

  pub queue_at-IsQueue : IsMatcher m → IsQueue (queue_at k m)
  queue_at-IsQueue inv = elim (Option-cases (GoMap.get m.queues k)) [
    | inl e ↦ rw (queue_at-none e) new_queue-IsQueue
    | inr (q, e) ↦ rw (queue_at-some q e) (inv.well k q e)
  ]

  pub set_queue-IsMatcher : (q : Queue) → IsQueue q → IsMatcher m → IsMatcher (set_queue k q m)
  set_queue-IsMatcher q h inv = record {
    well = λ j r e. elim (Bool-cases (k == j)) [
      | inl s ↦ subst IsQueue (ground (arith, GoMap.get-put m.queues k j q)) h
      | inr s ↦ inv.well j r (ground (arith, GoMap.get-put m.queues k j q))
    ];
  }

module _ (kind : Kind) (t : Task) (now : Time) (m : Matcher) where
  pub add-closed : m.closed ≡ true → add kind t now m ≡ (closed_matcher, m)
  unfolding add
  add-closed e = simp e

  pub add-unnamed :
      m.closed ≡ false → (t.task_queue == "") ≡ true → add kind t now m ≡ (no_task_queue, m)
  unfolding add
  add-unnamed e f = simp (e, f)

  pub add-open :
      m.closed ≡ false
      → (t.task_queue == "") ≡ false
      → add kind t now m ≡ offer_to (key_of kind t) (stamped now t) m
  unfolding add
  add-open e f = simp (e, f)

offer_to-IsMatcher :
    (k : QueueKey) (t : Task) (m : Matcher) → IsMatcher m → IsMatcher (offer_to k t m).1
offer_to-IsMatcher k t m inv =
    set_queue-IsMatcher k m (offer t (pos_part m.max_backlog) (queue_at k m)).1
      (offer-IsQueue t (pos_part m.max_backlog) (queue_at k m) (queue_at-IsQueue k m inv)) inv

pub add-IsMatcher :
    (kind : Kind) (t : Task) (now : Time) (m : Matcher)
    → IsMatcher m
    → IsMatcher (add kind t now m).1
add-IsMatcher kind t now m inv = elim (Bool-cases m.closed) [
  | inl e ↦ rw (add-closed kind t now m e) inv
  | inr e ↦ elim (Bool-cases (t.task_queue == "")) [
    | inl f ↦ rw (add-unnamed kind t now m e f) inv
    | inr f ↦
        rw (add-open kind t now m e f) (offer_to-IsMatcher (key_of kind t) (stamped now t) m inv)
  ]
]

park_at-IsMatcher : (k : QueueKey) (m : Matcher) → IsMatcher m → IsMatcher (park_at k m).1
park_at-IsMatcher k m inv =
    set_queue-IsMatcher k m (park (queue_at k m)).1
      (park-IsQueue (queue_at k m) (queue_at-IsQueue k m inv)) inv

after_take-IsMatcher :
    (k : QueueKey) (o : Option (Task × ℕ)) (q : Queue) (m : Matcher)
    → IsQueue q
    → IsMatcher m
    → IsMatcher (after_take k (o, q) m).1
after_take-IsMatcher k none q m h inv =
    park_at-IsMatcher k (set_queue k q m) (set_queue-IsMatcher k m q h inv)
after_take-IsMatcher k (some (t, depth)) q m h inv = set_queue-IsMatcher k m q h inv

module _ (k : QueueKey) (m : Matcher) where
  pub poll_begin-closed : m.closed ≡ true → poll_begin k m ≡ (poll_closed, m)
  unfolding poll_begin
  poll_begin-closed e = simp e

  poll_begin-unnamed : m.closed ≡ false → (k.task_queue == "") ≡ true → (poll_begin k m).1 ≡ m
  unfolding poll_begin
  poll_begin-unnamed e f = simp (e, f)

  poll_begin-open :
      m.closed ≡ false
      → (k.task_queue == "") ≡ false
      → poll_begin k m ≡ after_take k (take_backlog (queue_at k m)) m
  unfolding poll_begin
  poll_begin-open e f = simp (e, f)

  pub poll_begin-IsMatcher : IsMatcher m → IsMatcher (poll_begin k m).1
  poll_begin-IsMatcher inv = elim (Bool-cases m.closed) [
    | inl e ↦ rw (poll_begin-closed e) inv
    | inr e ↦ elim (Bool-cases (k.task_queue == "")) [
      | inl f ↦ rw (poll_begin-unnamed e f) inv
      | inr f ↦ rw (poll_begin-open e f) (
          after_take-IsMatcher k (take_backlog (queue_at k m)).0 (take_backlog (queue_at k m)).1 m
            (take_backlog-IsQueue (queue_at k m) (queue_at-IsQueue k m inv)) inv)
    ]
  ]

  pub poll_receive-IsMatcher : (w : ℕ) → IsMatcher m → IsMatcher (poll_receive k w m).1
  unfolding poll_receive
  poll_receive-IsMatcher w inv =
      set_queue-IsMatcher k m (receive w (queue_at k m)).1
        (receive-IsQueue w (queue_at k m) (queue_at-IsQueue k m inv)) inv

  pub poll_give_up-IsMatcher :
      (timed_out : Bool) (w : ℕ) → IsMatcher m → IsMatcher (poll_give_up timed_out k w m).1
  unfolding poll_give_up
  poll_give_up-IsMatcher timed_out w inv =
      set_queue-IsMatcher k m
        (count_timeout timed_out (unpark w (queue_at k m)).0 (unpark w (queue_at k m)).1)
        (counted timed_out (unpark w (queue_at k m)).0 (unpark w (queue_at k m)).1
          (unpark-IsQueue w (queue_at k m) (queue_at-IsQueue k m inv)))
        inv
    where
      counted : (b : Bool) (o : Option Task) (q : Queue) → IsQueue q → IsQueue (count_timeout b o q)
      counted true none q h = IsQueue-same refl refl h
      counted true (some t) q h = h
      counted false o q h = h
