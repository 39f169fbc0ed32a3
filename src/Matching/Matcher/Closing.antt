-- ===== src/Matching/Matcher/Closing.antt =====
-- What Close leaves of a matcher, for the calls that follow and for the polls in flight.
use skald.Prelude.{
  ℕ, ◌≡◌, inl, inr, refl, sym, subst, ◌∙◌, Bool, true, false, none, some, List, [], ◌∷◌, among,
  get_elem?, set_elem, get_elem?-set_elem, Option-cases, Bool-cases, arith, ◌==◌, nat_eq, ap,
  if◌then◌else◌, Option, ◌≤◌,
}
use skald.Prelude.Int.{pos_part}
use skald.Prelude.GoMap
use skald.History.Event.{Time}
use skald.Matching.Task.{Task, Kind, QueueKey, key_eq}
use skald.Matching.Queue.{Queue, Waiter, new_queue, unpark, drain, settle_all, offer, enqueue}
use skald.Matching.Queue.Cases.{
  settle_all-none, settle_all-some, unpark-none, unpark-settled, offer-nil,
}
use skald.Matching.Queue.Invariant.{IsQueue, drain-IsQueue}
use skald.Matching.Matcher.{
  Matcher, closed_matcher, poll_closed, queue_at, add, poll_begin, poll_give_up, close, added,
  added_as, offer_to,
}
use skald.Matching.Matcher.Laws.{
  IsMatcher, queue_at-none, queue_at-some, queue_at-IsQueue, add-closed, poll_begin-closed,
}

-- The buffers of waiters stay as they are when they are settled.
settle_all-buffer :
    (ws : List ℕ) (store : List Waiter) (w : ℕ) (x : Waiter)
    → get_elem? store w ≡ some x
    → (y : Waiter) × (get_elem? (settle_all ws store) w ≡ some y) × (y.buffer ≡ x.buffer)
unfolding settle_all
settle_all-buffer [] store w x h = (x, h, refl)
settle_all-buffer (v ∷ ws) store w x h = elim (Option-cases (get_elem? store v)) [
  | inl e ↦ rw (settle_all-none v ws store e) (settle_all-buffer ws store w x h)
  | inr (z, e) ↦ elim (Bool-cases (v == w)) [
    | inl s ↦ rw (settle_all-some v ws store z e) (
        let (y, g, f) =
          settle_all-buffer ws (set_elem store v (record z { settled = true })) w
            (record z { settled = true })
            (ground
              (arith, get_elem?-set_elem store v w {old = z} (record z { settled = true }) e)) in
        (y, g, ground arith))
    | inr s ↦ rw (settle_all-some v ws store z e) (
        settle_all-buffer ws (set_elem store v (record z { settled = true })) w x
          (ground (arith, get_elem?-set_elem store v w {old = z} (record z { settled = true }) e)))
  ]
]

settle_all-missing :
    (ws : List ℕ) (store : List Waiter) (w : ℕ)
    → get_elem? store w ≡ none
    → get_elem? (settle_all ws store) w ≡ none
unfolding settle_all
settle_all-missing [] store w h = h
settle_all-missing (v ∷ ws) store w h = elim (Option-cases (get_elem? store v)) [
  | inl e ↦ rw (settle_all-none v ws store e) (settle_all-missing ws store w h)
  | inr (z, e) ↦ rw (settle_all-some v ws store z e) (
      settle_all-missing ws (set_elem store v (record z { settled = true })) w
        (ground (arith, h, get_elem?-set_elem store v w {old = z} (record z { settled = true }) e)))
]

-- What is in the channel of a waiter.
abbrev pub in_channel : ℕ → Queue → Option Task
in_channel w q = elim (get_elem? q.store w) [ none ↦ none | some x ↦ x.buffer ]

-- After `drain`, `unpark` returns what was in the channel before it.
drain-unpark : (w : ℕ) (q : Queue) → IsQueue q → (unpark w (drain q).1).0 ≡ in_channel w q
unfolding drain
drain-unpark w q inv = elim (Option-cases (get_elem? q.store w)) [
  | inl e ↦
      ap (λ (r : Option Task × Queue). r.0)
        (unpark-none w (drain q).1 (settle_all-missing q.waiters q.store w e))
      ∙ ground (arith, e)
  | inr (x, e) ↦
      let (y, g, f) = settle_all-buffer q.waiters q.store w x e in
      ap (λ (r : Option Task × Queue). r.0)
        (unpark-settled w (drain q).1 y g ((drain-IsQueue q inv).settled w y g refl))
      ∙ f
      ∙ ground (arith, e)
]

parked-in_channel :
    (w : ℕ) (q : Queue)
    → IsQueue q
    → in_channel w q ≡ (if among w q.waiters then none else in_channel w q)
parked-in_channel w q inv = elim (Bool-cases (among w q.waiters)) [
  | inl e ↦ rw e (ground (arith, inv.waiting w e))
  | inr e ↦ rw e refl
]

drained : (drain new_queue).1 ≡ new_queue
unfolding drain settle_all
drained = refl

module _ (m : Matcher) (running : m.closed ≡ false) where
  close-closed : (close m).closed ≡ true
  unfolding close
  close-closed = simp running

  get-close :
      (k : QueueKey) (q : Queue)
      → GoMap.get m.queues k ≡ some q
      → GoMap.get (close m).queues k ≡ some (drain q).1
  unfolding close
  get-close k q e =
      simp (running) (ground (arith, GoMap.get-map_values (λ (p : Queue). (drain p).1) m.queues k))

  get-close-none :
      (k : QueueKey) → GoMap.get m.queues k ≡ none → GoMap.get (close m).queues k ≡ none
  unfolding close
  get-close-none k e =
      simp (running) (ground (arith, GoMap.get-map_values (λ (p : Queue). (drain p).1) m.queues k))

  close-max_backlog : (close m).max_backlog ≡ m.max_backlog
  unfolding close
  close-max_backlog = simp running

  pub close-IsMatcher : IsMatcher m → IsMatcher (close m)
  close-IsMatcher inv = record {
    well = λ k q e. elim (Option-cases (GoMap.get m.queues k)) [
      | inl n ↦ absurd (ground (arith, get-close-none k n))
      | inr (p, h) ↦
          subst IsQueue (ground (arith, get-close k p h)) (drain-IsQueue p (inv.well k p h))
    ];
  }

  queue_at-close : (k : QueueKey) → queue_at k (close m) ≡ (drain (queue_at k m)).1
  queue_at-close k = elim (Option-cases (GoMap.get m.queues k)) [
    | inl e ↦
        rw (queue_at-none k m e) (queue_at-none k (close m) (get-close-none k e) ∙ sym drained)
    | inr (q, e) ↦
        rw (queue_at-some k m q e) (queue_at-some k (close m) (drain q).1 (get-close k q e))
  ]

-- Close on an open matcher with well-formed queues, if the calls come one after the other: later
-- calls fail with the error for a closed matcher and change nothing; no queue has a task on its
-- backlog or a poller on its list; and a poll in flight returns empty if it is parked, and otherwise
-- what its channel holds.
pub close_lem :
    (m : Matcher) (k : QueueKey) (kind : Kind) (t : Task) (now : Time) (w : ℕ) (timed_out : Bool)
    → IsMatcher m
    → m.closed ≡ false
    → (add kind t now (close m) ≡ (closed_matcher, close m))
      × (poll_begin k (close m) ≡ (poll_closed, close m))
      × ((queue_at k (close m)).backlog ≡ [])
      × ((queue_at k (close m)).waiters ≡ [])
      × ((poll_give_up timed_out k w (close m)).0
          ≡ (if among w (queue_at k m).waiters then none else in_channel w (queue_at k m)))
unfolding drain poll_give_up
close_lem m k kind t now w timed_out inv running = (
  add-closed kind t now (close m) (close-closed m running),
  poll_begin-closed k (close m) (close-closed m running),
  rw (queue_at-close m running k),
  rw (queue_at-close m running k),
  rw (queue_at-close m running k) (
      drain-unpark w (queue_at k m) (queue_at-IsQueue k m inv)
      ∙ parked-in_channel w (queue_at k m) (queue_at-IsQueue k m inv)),
)

late_offer :
    (m : Matcher) (k : QueueKey) (t : Task)
    → m.closed ≡ false
    → offer t (pos_part (close m).max_backlog) (queue_at k (close m))
      ≡ enqueue t (pos_part m.max_backlog) (drain (queue_at k m)).1
unfolding drain
late_offer m k t running =
    rw (queue_at-close m running k, close-max_backlog m running)
      (offer-nil t (pos_part m.max_backlog) (drain (queue_at k m)).1 refl)

enqueue-drained :
    (t : Task) (m : Matcher) (k : QueueKey)
    → 1 ≤ pos_part m.max_backlog
    → (added_as (enqueue t (pos_part m.max_backlog) (drain (queue_at k m)).1).0 ≡ added)
      × ((enqueue t (pos_part m.max_backlog) (drain (queue_at k m)).1).1.backlog ≡ t ∷ [])
unfolding drain
enqueue-drained t m k room = (ground (arith, room), ground (arith, room))

-- A call of `add` that has passed its check of `closed` before Close runs comes too late for the
-- drain: if the backlog has room for a task at all, the call returns without an error, and the task
-- is on the backlog of the closed matcher.
pub offer_to-close :
    (m : Matcher) (k : QueueKey) (t : Task)
    → m.closed ≡ false
    → 1 ≤ pos_part m.max_backlog
    → ((offer_to k t (close m)).0 ≡ added)
      × ((offer_to k t (close m)).1.closed ≡ true)
      × ((queue_at k (offer_to k t (close m)).1).backlog ≡ t ∷ [])
offer_to-close m k t running room = (
  rw (late_offer m k t running) (enqueue-drained t m k room).0,
  close-closed m running,
  ap (λ (q : Queue). q.backlog)
        (queue_at-some k (offer_to k t (close m)).1
          (offer t (pos_part (close m).max_backlog) (queue_at k (close m))).1
          (GoMap.get-put_self (close m).queues k
            (offer t (pos_part (close m).max_backlog) (queue_at k (close m))).1))
      ∙ rw (late_offer m k t running) (enqueue-drained t m k room).1,
)
