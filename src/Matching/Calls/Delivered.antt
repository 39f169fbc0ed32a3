-- ===== src/Matching/Calls/Delivered.antt =====
-- A task that was handed to a waiter, until the poll of that waiter ends.
use skald.Prelude.{
  ℕ, ◌≡◌, inl, inr, refl, Bool, true, false, not, ◌==◌, nat_eq, none, some, List, [], ◌∷◌, All,
  length, Option-cases, get_elem?, set_elem, get_elem?-set_elem, get_elem?-append_one, Bool-cases,
  arith,
}
use skald.Matching.Task.{Task}
use skald.Matching.Queue.{
  Queue, Waiter, idle, handed, offer, park, receive, unpark, settle_all, drain, take_backlog,
}
use skald.Matching.Queue.Cases.{
  List-cases, given, offer-nil, take_backlog-nil, take_backlog-cons, receive-none, receive-some,
  unpark-none, unpark-settled, unpark-waiting, settle_all-none, settle_all-some,
}
use skald.Matching.Queue.Invariant.{
  IsQueue, front-idle, offer-cons, offer-IsQueue, get_elem?-length,
}
use skald.Matching.Calls.{Call, offers, takes, parks, drains, receives, gives_up, step, run}
use skald.Matching.Calls.Keeps.{step-IsQueue}

-- The call is not the end of the poll of waiter `w`.
abbrev pub is_other : ℕ → Call → Bool
is_other w (receives v) = not (v == w)
is_other w (gives_up v) = not (v == w)
is_other w _ = true

module _ (w : ℕ) (t : Task) where
  settle_all-given :
      (ws : List ℕ) (store : List Waiter)
      → get_elem? store w ≡ some (given t)
      → get_elem? (settle_all ws store) w ≡ some (given t)
  unfolding settle_all
  settle_all-given [] store h = h
  settle_all-given (v ∷ ws) store h = elim (Option-cases (get_elem? store v)) [
    | inl e ↦ rw (settle_all-none v ws store e) (settle_all-given ws store h)
    | inr (x, e) ↦ rw (settle_all-some v ws store x e) (
        settle_all-given ws (set_elem store v (record x { settled = true }))
          (ground (arith, get_elem?-set_elem store v w {old = x} (record x { settled = true }) e)))
  ]

  -- Another waiter's entry is written.
  set_elem-given :
      (v : ℕ) (store : List Waiter) (old x : Waiter)
      → get_elem? store v ≡ some old
      → (v == w) ≡ false
      → get_elem? store w ≡ some (given t)
      → get_elem? (set_elem store v x) w ≡ some (given t)
  set_elem-given v store old x e n h = ground (arith, get_elem?-set_elem store v w {old = old} x e)

  module _ (max : ℕ) (q : Queue) (inv : IsQueue q) (h : get_elem? q.store w ≡ some (given t)) where
    offer-given : (u : Task) → get_elem? (offer u max q).1.store w ≡ some (given t)
    offer-given u = elim (List-cases q.waiters) [
      | inl e ↦ rw (offer-nil u max q e) (ground arith)
      | inr (v, ws, e) ↦ rw (offer-cons u max q v ws inv e) (
          set_elem-given v q.store idle (given u) (front-idle q v ws inv e)
            (ground (arith, front-idle q v ws inv e)) h)
    ]

    take_backlog-given : get_elem? (take_backlog q).1.store w ≡ some (given t)
    take_backlog-given = elim (List-cases q.backlog) [
      | inl e ↦ rw (take_backlog-nil q e) h
      | inr (u, us, e) ↦ rw (take_backlog-cons q u us e) h
    ]

    park-given : get_elem? (park q).1.store w ≡ some (given t)
    unfolding park
    park-given = ground (arith, get_elem?-append_one q.store w idle, get_elem?-length q.store)

    receive-given : (v : ℕ) → (v == w) ≡ false → get_elem? (receive v q).1.store w ≡ some (given t)
    receive-given v n = elim (Option-cases (get_elem? q.store v)) [
      | inl e ↦ rw (receive-none v q e) h
      | inr (x, e) ↦
          rw (receive-some v q x e) (set_elem-given v q.store x (record x { buffer = none }) e n h)
    ]

    unpark-given : (v : ℕ) → (v == w) ≡ false → get_elem? (unpark v q).1.store w ≡ some (given t)
    unpark-given v n = elim (Option-cases (get_elem? q.store v)) [
      | inl e ↦ rw (unpark-none v q e) h
      | inr (x, e) ↦ elim (Bool-cases x.settled) [
        | inl s ↦
            rw (unpark-settled v q x e s)
              (set_elem-given v q.store x (record x { buffer = none }) e n h)
        | inr s ↦
            rw (unpark-waiting v q x e s)
              (set_elem-given v q.store x (record x { settled = true }) e n h)
      ]
    ]

    drain-given : get_elem? (drain q).1.store w ≡ some (given t)
    unfolding drain
    drain-given = settle_all-given q.waiters q.store h

  step-given :
      (max : ℕ) (c : Call) (q : Queue)
      → IsQueue q
      → is_other w c ≡ true
      → get_elem? q.store w ≡ some (given t)
      → get_elem? (step max c q).store w ≡ some (given t)
  unfolding step
  step-given max (offers u) q inv o h = offer-given max q inv h u
  step-given max takes q inv o h = take_backlog-given max q inv h
  step-given max parks q inv o h = park-given max q inv h
  step-given max (receives v) q inv o h = receive-given max q inv h v (ground arith)
  step-given max (gives_up v) q inv o h = unpark-given max q inv h v (ground arith)
  step-given max drains q inv o h = drain-given max q inv h

  run-given :
      (max : ℕ) (cs : List Call) (q : Queue)
      → IsQueue q
      → All (λ c. is_other w c ≡ true) cs
      → get_elem? q.store w ≡ some (given t)
      → get_elem? (run max cs q).store w ≡ some (given t)
  unfolding run
  run-given max [] q inv o h = h
  run-given max (c ∷ cs) q inv o h =
      run-given max cs (step max c q) (step-IsQueue max c q inv) o.1 (step-given max c q inv o.0 h)

-- If a poller is parked, `offer` hands the task to the one at the front of the list. That poll then
-- ends with the task, by its channel or by `unpark`, whatever other pollers and producers do in
-- between and even if the matcher is closed.
pub offer-run-unpark :
    (max : ℕ) (t : Task) (cs : List Call) (q : Queue) (w : ℕ) (ws : List ℕ)
    → IsQueue q
    → q.waiters ≡ w ∷ ws
    → All (λ c. is_other w c ≡ true) cs
    → ((offer t max q).0 ≡ handed (length q.backlog))
      × ((receive w (run max cs (offer t max q).1)).0 ≡ some t)
      × ((unpark w (run max cs (offer t max q).1)).0 ≡ some t)
offer-run-unpark max t cs q w ws inv e o =
    let r : Queue = run max cs (offer t max q).1 in
    let end : get_elem? r.store w ≡ some (given t) =
      run-given w t max cs (offer t max q).1 (offer-IsQueue t max q inv) o (
        rw (offer-cons t max q w ws inv e) (
          ground (
            arith,
            get_elem?-set_elem q.store w w {old = idle} (given t) (front-idle q w ws inv e),
          ))) in
    (
      rw (offer-cons t max q w ws inv e),
      rw (receive-some w r (given t) end),
      rw (unpark-settled w r (given t) end refl),
    )
