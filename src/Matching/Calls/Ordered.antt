-- ===== src/Matching/Calls/Ordered.antt =====
-- The order of the backlog and its bound, over sequences of calls.
use skald.Prelude.{
  ℕ, Option, none, some, ◌≤◌, ◌≡◌, inl, inr, refl, sym, ◌∙◌, ap, List, [], ◌∷◌, ◌++◌, length,
  length-append, append_assoc, append-nil, Bool-cases, leb, arith,
}
use skald.Matching.Task.{Task}
use skald.Matching.Queue.{
  Queue, new_queue, enqueue, offer, take_backlog, park, receive, unpark, drain,
}
use skald.Matching.Queue.Cases.{List-cases, offer-nil, take_backlog-nil, take_backlog-cons}
use skald.Matching.Queue.Invariant.{IsQueue, offer-cons}
use skald.Matching.Calls.{
  Call, offers, takes, parks, drains, receives, gives_up, Ledger, new_ledger, note_offer,
  note_return, note_take, step, record_call, run, record_calls,
}
use skald.Matching.Calls.Keeps.{step-IsQueue, new_queue-IsQueue}

-- The backlog is what joined it and has not left it, in that order, and it is within its bound.
record InOrder (max : ℕ) (q : Queue) (l : Ledger) : Type 0 where
  fifo : l.joined ≡ l.taken ++ q.backlog
  bounded : length q.backlog ≤ max

InOrder-same :
    {max : ℕ} {q r : Queue} {l m : Ledger}
    → r.backlog ≡ q.backlog
    → m.joined ≡ l.joined
    → m.taken ≡ l.taken
    → InOrder max q l
    → InOrder max r m
InOrder-same e f g h = ground (arith, h.fifo, h.bounded)

enqueue-InOrder :
    (t : Task) (max : ℕ) (q : Queue) (l : Ledger)
    → InOrder max q l
    → InOrder max (enqueue t max q).1 (note_offer t (enqueue t max q).0 l)
enqueue-InOrder t max q l h = elim (Bool-cases (leb max (length q.backlog))) [
  | inl e ↦ rw e (InOrder-same refl refl refl h)
  | inr e ↦ rw e (record {
    fifo = ap (λ j. j ++ t ∷ []) h.fifo ∙ append_assoc l.taken q.backlog (t ∷ []);
    bounded = ground (arith, length-append q.backlog (t ∷ []));
  })
]

offer-InOrder :
    (t : Task) (max : ℕ) (q : Queue) (l : Ledger)
    → IsQueue q
    → InOrder max q l
    → InOrder max (offer t max q).1 (note_offer t (offer t max q).0 l)
offer-InOrder t max q l inv h = elim (List-cases q.waiters) [
  | inl e ↦
      rw (offer-nil t max q e)
        (enqueue-InOrder t max (record q { waiters = [] }) l (InOrder-same refl refl refl h))
  | inr (w, ws, e) ↦ rw (offer-cons t max q w ws inv e) (InOrder-same refl refl refl h)
]

take_backlog-InOrder :
    (max : ℕ) (q : Queue) (l : Ledger)
    → InOrder max q l
    → InOrder max (take_backlog q).1 (note_take (take_backlog q).0 l)
take_backlog-InOrder max q l h = elim (List-cases q.backlog) [
  | inl e ↦ rw (take_backlog-nil q e) h
  | inr (t, ts, e) ↦ rw (take_backlog-cons q t ts e) (record {
    fifo = h.fifo ∙ ap (λ b. l.taken ++ b) e ∙ sym (append_assoc l.taken (t ∷ []) ts);
    bounded = omega (arith, h.bounded, ap length e);
  })
]

note_return-InOrder :
    {max : ℕ} {q r : Queue} {l : Ledger} (o : Option Task)
    → r.backlog ≡ q.backlog
    → InOrder max q l
    → InOrder max r (note_return o l)
note_return-InOrder none e h = InOrder-same e refl refl h
note_return-InOrder (some t) e h = InOrder-same e refl refl h

receive-backlog : (w : ℕ) (q : Queue) → (receive w q).1.backlog ≡ q.backlog
unfolding receive
receive-backlog w q = ground arith

unpark-backlog : (w : ℕ) (q : Queue) → (unpark w q).1.backlog ≡ q.backlog
unfolding unpark
unpark-backlog w q = ground arith

step-InOrder :
    (max : ℕ) (c : Call) (q : Queue) (l : Ledger)
    → IsQueue q
    → InOrder max q l
    → InOrder max (step max c q) (record_call max c q l)
unfolding step record_call park drain
step-InOrder max (offers t) q l inv h = offer-InOrder t max q l inv h
step-InOrder max takes q l inv h = take_backlog-InOrder max q l h
step-InOrder max parks q l inv h = InOrder-same refl refl refl h
step-InOrder max (receives w) q l inv h =
    note_return-InOrder (receive w q).0 (receive-backlog w q) h
step-InOrder max (gives_up w) q l inv h = note_return-InOrder (unpark w q).0 (unpark-backlog w q) h
step-InOrder max drains q l inv h = record {
  fifo = h.fifo ∙ sym (append-nil (l.taken ++ q.backlog));
  bounded = omega arith;
}

run-InOrder :
    (max : ℕ) (cs : List Call) (q : Queue) (l : Ledger)
    → IsQueue q
    → InOrder max q l
    → InOrder max (run max cs q) (record_calls max cs q l)
unfolding run record_calls
run-InOrder max [] q l inv h = h
run-InOrder max (c ∷ cs) q l inv h =
    run-InOrder max cs (step max c q) (record_call max c q l) (step-IsQueue max c q inv)
      (step-InOrder max c q l inv h)

-- Whatever calls were made on a new queue: the tasks that joined the backlog are those that left it
-- at the front followed by those on it, in the order in which they joined; and the backlog is no
-- longer than the bound given to `offer`.
pub run-backlog :
    (max : ℕ) (cs : List Call)
    → ((record_calls max cs new_queue new_ledger).joined
        ≡ (record_calls max cs new_queue new_ledger).taken ++ (run max cs new_queue).backlog)
      × (length (run max cs new_queue).backlog ≤ max)
run-backlog max cs =
    let r : InOrder max (run max cs new_queue) (record_calls max cs new_queue new_ledger) =
      run-InOrder max cs new_queue new_ledger new_queue-IsQueue
        (record { fifo = refl; bounded = omega arith }) in
    (r.fifo, r.bounded)
