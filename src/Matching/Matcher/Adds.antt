-- ===== src/Matching/Matcher/Adds.antt =====
-- What `add` does to the queues of an open matcher.
use skald.Prelude.{
  ◌≤◌, ◌≡◌, ◌≢◌, ◌↔◌, ◌⊎◌, ◌||◌, if◌then◌else◌, refl, inl, inr, string_eq, false, List, [], ◌∷◌,
  ◌==◌, length, Bool-cases, arith, subst, sym, ℕ,
}
use skald.Prelude.Int.{pos_part}
use skald.Prelude.GoMap
use skald.History.Event.{Time}
use skald.Matching.Task.{Task, Kind, QueueKey, key_eq}
use skald.Matching.Queue.{Queue, enqueue, offer}
use skald.Matching.Queue.Cases.{List-cases, offer-nil}
use skald.Matching.Queue.Invariant.{IsQueue, offer-cons}
use skald.Matching.Matcher.{
  Matcher, Added, added, backlog_full, added_as, queue_at, key_of, stamped, add, offer_to,
}
use skald.Matching.Matcher.Laws.{
  IsMatcher, queue_at-some, queue_at-IsQueue, add-closed, add-unnamed, add-open,
}

-- The result of `offer`, with a backlog of `depth` tasks and these waiters.
record Answer (max depth : ℕ) (a : Added) (waiters : List ℕ) : Type 0 where
  full : (a ≡ backlog_full) ↔ ((waiters ≡ []) × (max ≤ depth))
  otherwise : (a ≡ added) ⊎ (a ≡ backlog_full)

enqueue-Answer :
    (t : Task) (max : ℕ) (q : Queue)
    → Answer max (length q.backlog) (added_as (enqueue t max q).0) []
enqueue-Answer t max q = ground arith

matched-Answer : (max depth w : ℕ) (ws : List ℕ) → Answer max depth added (w ∷ ws)
matched-Answer max depth w ws = ground arith

offer-Answer :
    (t : Task) (max : ℕ) (q : Queue)
    → IsQueue q
    → Answer max (length q.backlog) (added_as (offer t max q).0) q.waiters
offer-Answer t max q inv = elim (List-cases q.waiters) [
  | inl e ↦ rw (offer-nil t max q e) (
      subst (Answer max (length q.backlog) (added_as (enqueue t max (record q { waiters = [] })).0))
        (sym e) (enqueue-Answer t max (record q { waiters = [] })))
  | inr (w, ws, e) ↦ rw (offer-cons t max q w ws inv e) (
      subst (Answer max (length q.backlog) added) (sym e)
        (matched-Answer max (length q.backlog) w ws))
]

module _ (kind : Kind) (t : Task) (now : Time) (m : Matcher) where
  -- An open matcher, in which every queue is well-formed, answers a task with a queue name: it
  -- refuses it for a full backlog exactly if no poller is parked at the queue of the task's
  -- namespace, name and kind and its backlog is at the bound, and otherwise it accepts it. So the
  -- call never blocks on a channel and never panics.
  pub add_full_iff :
      IsMatcher m
      → m.closed ≡ false
      → (t.task_queue == "") ≡ false
      → let own : QueueKey = record {
        namespace = t.namespace;
        task_queue = t.task_queue;
        kind = kind;
      } in
        (((add kind t now m).0 ≡ backlog_full) ↔ (
          ((queue_at own m).waiters ≡ [])
          × (pos_part m.max_backlog ≤ length (queue_at own m).backlog)))
        × (((add kind t now m).0 ≡ added) ⊎ ((add kind t now m).0 ≡ backlog_full))
  add_full_iff inv open_ named =
      rw (add-open kind t now m open_ named) (answer.full, answer.otherwise)
    where
      answer :
          Answer
            (pos_part m.max_backlog)
            (length (queue_at (key_of kind t) m).backlog)
            (offer_to (key_of kind t) (stamped now t) m).0
            (queue_at (key_of kind t) m).waiters
      answer =
          offer-Answer (stamped now t) (pos_part m.max_backlog) (queue_at (key_of kind t) m)
            (queue_at-IsQueue (key_of kind t) m inv)

  own_queue : queue_at (key_of kind t) (add kind t now m).1 ≡ (
      if m.closed || t.task_queue == ""
      then queue_at (key_of kind t) m
      else (offer (stamped now t) (pos_part m.max_backlog) (queue_at (key_of kind t) m)).1)
  own_queue = elim (Bool-cases m.closed) [
    | inl e ↦ rw (add-closed kind t now m e, e) refl
    | inr e ↦ elim (Bool-cases (t.task_queue == "")) [
      | inl f ↦ rw (add-unnamed kind t now m e f, e, f) refl
      | inr f ↦
          rw (add-open kind t now m e f, e, f)
            (queue_at-some (key_of kind t) (offer_to (key_of kind t) (stamped now t) m).1
              (offer (stamped now t) (pos_part m.max_backlog) (queue_at (key_of kind t) m)).1
              (GoMap.get-put_self m.queues (key_of kind t)
                (offer (stamped now t) (pos_part m.max_backlog) (queue_at (key_of kind t) m)).1))
    ]
  ]

  get-add-other :
      (j : QueueKey)
      → j ≢ key_of kind t
      → GoMap.get (add kind t now m).1.queues j ≡ GoMap.get m.queues j
  get-add-other j other = elim (Bool-cases m.closed) [
    | inl e ↦ rw (add-closed kind t now m e)
    | inr e ↦ elim (Bool-cases (t.task_queue == "")) [
      | inl f ↦ rw (add-unnamed kind t now m e f)
      | inr f ↦ rw (add-open kind t now m e f) (
          ground (
            arith,
            key_eq.beq_iff (key_of kind t) j,
            GoMap.get-put m.queues (key_of kind t) j
                (offer (stamped now t) (pos_part m.max_backlog) (queue_at (key_of kind t) m)).1,
          ))
    ]
  ]

  -- A task, accepted or not, leaves every queue as it is whose namespace, name or kind is not its
  -- own. The queue of its own namespace, name and kind is as `offer` of the task leaves it, or as it
  -- was if the matcher is closed or the task names no queue.
  pub get-add :
      (j : QueueKey)
      → j ≢ record { namespace = t.namespace; task_queue = t.task_queue; kind = kind }
      → let own : QueueKey = record {
        namespace = t.namespace;
        task_queue = t.task_queue;
        kind = kind;
      } in
        (GoMap.get (add kind t now m).1.queues j ≡ GoMap.get m.queues j)
        × (queue_at own (add kind t now m).1 ≡ (
            if m.closed || t.task_queue == ""
            then queue_at own m
            else (offer (stamped now t) (pos_part m.max_backlog) (queue_at own m)).1))
  get-add j other = (get-add-other j other, own_queue)
