-- ===== src/Matching/Calls/Gap.antt =====
-- A task that is offered between the two critical sections of one poll.
use skald.Prelude.{
  ℕ, ◌<◌, false, Option, none, ◌≡◌, refl, ◌∙◌, ap, List, [], ◌∷◌, ◌++◌, length, leb, arith,
}
use skald.Matching.Task.{Task}
use skald.Matching.Queue.{Queue, Offered, handed, queued, idle, offer, take_backlog, park}
use skald.Matching.Queue.Cases.{offer-nil, take_backlog-nil}
use skald.Matching.Queue.Invariant.{IsQueue, offer-cons}
use skald.Matching.Calls.{Call, offers, takes, parks, step, run}
use skald.Matching.Calls.Keeps.{run-IsQueue}

offer-empty :
    (max : ℕ) (t : Task) (q : Queue)
    → q.backlog ≡ []
    → q.waiters ≡ []
    → 0 < max
    → offer t max q ≡ (queued 1, record q { backlog = t ∷ []; waiters = [] })
offer-empty max t q b w pos = offer-nil t max q w ∙ rw (leb_false, b) refl
  where
    leb_false : leb max (length q.backlog) ≡ false
    leb_false = ground (arith, ap length b)

abbrev between : Task → List Call
between t = takes ∷ offers t ∷ parks ∷ []

run-between :
    (max : ℕ) (t : Task) (q : Queue)
    → q.backlog ≡ []
    → q.waiters ≡ []
    → 0 < max
    → run max (between t) q
      ≡ record q { backlog = t ∷ []; waiters = length q.store ∷ []; store = q.store ++ idle ∷ [] }
unfolding run step park
run-between max t q b w pos =
    ap (λ (p : Option (Task × ℕ) × Queue). (park (offer t max p.1).1).1) (take_backlog-nil q b)
    ∙ ap (λ (p : Offered × Queue). (park p.1).1) (offer-empty max t q b w pos)

-- The two critical sections of a poll leave a gap. If the backlog and the list of pollers are empty
-- and the poller finds no task, a task that is offered before it parks joins the backlog; the poller
-- then waits, although a task is queued, and a task that is offered next is handed to it, ahead of
-- the one that waits on the backlog.
pub offer-between :
    (max : ℕ) (t u : Task) (q : Queue)
    → IsQueue q
    → q.backlog ≡ []
    → q.waiters ≡ []
    → 0 < max
    → ((take_backlog q).0 ≡ none)
      × ((run max (between t) q).backlog ≡ t ∷ [])
      × ((run max (between t) q).waiters ≡ length q.store ∷ [])
      × ((offer u max (run max (between t) q)).0 ≡ handed 1)
offer-between max t u q inv b w pos =
    let r : Queue = run max (between t) q in
    let parked : r.waiters ≡ length q.store ∷ [] =
      ap (λ (p : Queue). p.waiters) (run-between max t q b w pos) in
    let behind : r.backlog ≡ t ∷ [] = ap (λ (p : Queue). p.backlog) (run-between max t q b w pos) in
    (
      rw (take_backlog-nil q b),
      behind,
      parked,
      ap (λ (p : Offered × Queue). p.0)
            (offer-cons u max r (length q.store) [] (run-IsQueue max (between t) q inv) parked)
          ∙ ap (λ l. handed (length l)) behind,
    )
