-- ===== src/Matching/Calls/Conserved.antt =====
-- The tasks of a queue counted by an arbitrary weight, over sequences of calls.
use skald.Prelude.{
  ℕ, ◌+◌, ◌≡◌, inl, inr, refl, Option, none, some, List, [], ◌∷◌, total, total-append,
  total-set_elem, get_elem?, ap, Bool, true, set_elem, length, Bool-cases, Option-cases, arith, leb,
}
use skald.Matching.Task.{Task}
use skald.Matching.Queue.{
  Queue, Waiter, new_queue, idle, enqueue, offer, take_backlog, park, receive, unpark, drain,
  set_waiter, settle_all,
}
use skald.Matching.Queue.Cases.{
  List-cases, take_backlog-nil, take_backlog-cons, given, abandoned, offer-nil, receive-none,
  receive-some, unpark-none, unpark-settled, unpark-waiting, settle_all-none, settle_all-some,
}
use skald.Matching.Queue.Invariant.{IsQueue, front-idle, offer-cons}
use skald.Matching.Calls.Keeps.{step-IsQueue, new_queue-IsQueue}
use skald.Matching.Calls.{
  Call, offers, takes, parks, drains, receives, gives_up, Ledger, new_ledger, note_offer,
  note_return, note_take, note_drain, step, record_call, run, record_calls,
}

-- The weight of what a channel holds.
abbrev pub in_channel : (Task → ℕ) → Waiter → ℕ
in_channel f x = elim x.buffer [ none ↦ 0 | some t ↦ f t ]

-- The weight of what a queue holds, on its backlog and in channels.
abbrev pub held : (Task → ℕ) → Queue → ℕ
held f q = total f q.backlog + total (in_channel f) q.store

abbrev pub went_out : (Task → ℕ) → Ledger → ℕ
went_out f l = total f l.returned + total f l.discarded

abbrev Balanced : (Task → ℕ) → Queue → Ledger → Type 0
Balanced f q l = total f l.accepted ≡ went_out f l + held f q

abbrev one : Task → List Task
one t = t ∷ []

module _ (f : Task → ℕ) (l : Ledger) where
  enqueue-Balanced :
      (t : Task) (max : ℕ) (q : Queue)
      → Balanced f q l
      → Balanced f (enqueue t max q).1 (note_offer t (enqueue t max q).0 l)
  enqueue-Balanced t max q b = elim (Bool-cases (leb max (length q.backlog))) [
    | inl e ↦ rw e b
    | inr e ↦
        rw e (omega (arith, b, total-append f l.accepted (one t), total-append f q.backlog (one t)))
  ]

  module _ (q : Queue) (b : Balanced f q l) where
    offer-Balanced :
        (t : Task) (max : ℕ)
        → IsQueue q
        → Balanced f (offer t max q).1 (note_offer t (offer t max q).0 l)
    offer-Balanced t max inv = elim (List-cases q.waiters) [
      | inl e ↦ rw (offer-nil t max q e) (enqueue-Balanced t max (record q { waiters = [] }) b)
      | inr (w, ws, e) ↦ rw (offer-cons t max q w ws inv e) (
          omega (
            arith,
            b,
            total-append f l.accepted (one t),
            total-set_elem (in_channel f) q.store w {old = idle} (given t)
                (front-idle q w ws inv e),
          ))
    ]

    park-Balanced : Balanced f (park q).1 l
    unfolding park
    park-Balanced = omega (arith, b, total-append (in_channel f) q.store (idle ∷ []))

    take_backlog-Balanced : Balanced f (take_backlog q).1 (note_take (take_backlog q).0 l)
    take_backlog-Balanced = elim (List-cases q.backlog) [
      | inl e ↦ rw (take_backlog-nil q e) b
      | inr (t, ts, e) ↦
          rw (take_backlog-cons q t ts e)
            (omega (arith, b, ap (total f) e, total-append f l.returned (one t)))
    ]

    -- The task of a waiter whose channel is emptied goes to its poller.
    emptied-Balanced :
        (w : ℕ) (buffer : Option Task) (settled : Bool)
        → get_elem? q.store w ≡ some (record { buffer = buffer; settled = settled })
        → Balanced f
            (set_waiter q w (record { buffer = none; settled = settled }))
            (note_return buffer l)
    emptied-Balanced w none settled e = omega (
      arith,
      b,
      total-set_elem (in_channel f) q.store w {old = record { buffer = none; settled = settled }}
          (record { buffer = none; settled = settled }) e,
    )
    emptied-Balanced w (some t) settled e = omega (
      arith,
      b,
      total-append f l.returned (one t),
      total-set_elem (in_channel f) q.store w {old = record { buffer = some t; settled = settled }}
          (record { buffer = none; settled = settled }) e,
    )

    receive-Balanced : (w : ℕ) → Balanced f (receive w q).1 (note_return (receive w q).0 l)
    receive-Balanced w = elim (Option-cases (get_elem? q.store w)) [
      | inl e ↦ rw (receive-none w q e) b
      | inr (x, e) ↦ rw (receive-some w q x e) (emptied-Balanced w x.buffer x.settled e)
    ]

    abandoned-Balanced :
        (w : ℕ) (x : Waiter) → get_elem? q.store w ≡ some x → Balanced f (abandoned w x q) l
    abandoned-Balanced w x e = omega (
      arith,
      b,
      total-set_elem (in_channel f) q.store w {old = x} (record x { settled = true }) e,
    )

    unpark-Balanced : (w : ℕ) → Balanced f (unpark w q).1 (note_return (unpark w q).0 l)
    unpark-Balanced w = elim (Option-cases (get_elem? q.store w)) [
      | inl e ↦ rw (unpark-none w q e) b
      | inr (x, e) ↦ elim (Bool-cases x.settled) [
        | inl h ↦ rw (unpark-settled w q x e h) (emptied-Balanced w x.buffer x.settled e)
        | inr h ↦ rw (unpark-waiting w q x e h) (abandoned-Balanced w x e)
      ]
    ]

settle_all-total :
    (f : Task → ℕ) (ws : List ℕ) (store : List Waiter)
    → total (in_channel f) (settle_all ws store) ≡ total (in_channel f) store
unfolding settle_all
settle_all-total f [] store = refl
settle_all-total f (w ∷ ws) store = elim (Option-cases (get_elem? store w)) [
  | inl e ↦ rw (settle_all-none w ws store e) (settle_all-total f ws store)
  | inr (x, e) ↦ rw (settle_all-some w ws store x e) (
      omega (
        arith,
        settle_all-total f ws (set_elem store w (record x { settled = true })),
        total-set_elem (in_channel f) store w {old = x} (record x { settled = true }) e,
      ))
]

drain-Balanced :
    (f : Task → ℕ) (q : Queue) (l : Ledger)
    → Balanced f q l
    → Balanced f (drain q).1 (note_drain q.backlog l)
unfolding drain
drain-Balanced f q l b =
    omega (arith, b, settle_all-total f q.waiters q.store, total-append f l.discarded q.backlog)

step-Balanced :
    (f : Task → ℕ) (max : ℕ) (c : Call) (q : Queue) (l : Ledger)
    → IsQueue q
    → Balanced f q l
    → Balanced f (step max c q) (record_call max c q l)
unfolding step record_call
step-Balanced f max (offers t) q l inv b = offer-Balanced f l q b t max inv
step-Balanced f max takes q l inv b = take_backlog-Balanced f l q b
step-Balanced f max parks q l inv b = park-Balanced f l q b
step-Balanced f max (receives w) q l inv b = receive-Balanced f l q b w
step-Balanced f max (gives_up w) q l inv b = unpark-Balanced f l q b w
step-Balanced f max drains q l inv b = drain-Balanced f q l b

run-Balanced :
    (f : Task → ℕ) (max : ℕ) (cs : List Call) (q : Queue) (l : Ledger)
    → IsQueue q
    → Balanced f q l
    → Balanced f (run max cs q) (record_calls max cs q l)
unfolding run record_calls
run-Balanced f max [] q l inv b = b
run-Balanced f max (c ∷ cs) q l inv b =
    run-Balanced f max cs (step max c q) (record_call max c q l) (step-IsQueue max c q inv)
      (step-Balanced f max c q l inv b)

-- No task is lost and none is made up: whatever calls were made on a new queue, in any order, and
-- however tasks are weighed (by 1 for one kind and by 0 for the rest, say), the tasks that the queue
-- accepted weigh as much as those that it returned to pollers, those that a drain discarded, those
-- on its backlog and those in the channels of waiters.
pub run-held :
    (f : Task → ℕ) (max : ℕ) (cs : List Call)
    → total f (record_calls max cs new_queue new_ledger).accepted
      ≡ total f (record_calls max cs new_queue new_ledger).returned
        + total f (record_calls max cs new_queue new_ledger).discarded
        + total f (run max cs new_queue).backlog
        + total (in_channel f) (run max cs new_queue).store
run-held f max cs =
    omega (arith, run-Balanced f max cs new_queue new_ledger new_queue-IsQueue (omega arith))
