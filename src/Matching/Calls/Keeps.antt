-- ===== src/Matching/Calls/Keeps.antt =====
-- The invariant of a queue over sequences of calls.
use skald.Prelude.{ℕ, List, [], ◌∷◌}
use skald.Matching.Queue.{Queue, new_queue}
use skald.Matching.Queue.Invariant.{
  IsQueue, offer-IsQueue, take_backlog-IsQueue, park-IsQueue, receive-IsQueue, unpark-IsQueue,
  drain-IsQueue,
}
use skald.Matching.Calls.{Call, offers, takes, parks, drains, receives, gives_up, step, run}

pub step-IsQueue : (max : ℕ) (c : Call) (q : Queue) → IsQueue q → IsQueue (step max c q)
unfolding step
step-IsQueue max (offers t) q inv = offer-IsQueue t max q inv
step-IsQueue max takes q inv = take_backlog-IsQueue q inv
step-IsQueue max parks q inv = park-IsQueue q inv
step-IsQueue max (receives w) q inv = receive-IsQueue w q inv
step-IsQueue max (gives_up w) q inv = unpark-IsQueue w q inv
step-IsQueue max drains q inv = drain-IsQueue q inv

pub new_queue-IsQueue : IsQueue new_queue
new_queue-IsQueue = record { waiting = λ w m. cc; settled = λ w x e m. cc; distinct = tt }

-- Every state that calls on a new queue lead to is well-formed.
pub run-IsQueue : (max : ℕ) (cs : List Call) (q : Queue) → IsQueue q → IsQueue (run max cs q)
unfolding run
run-IsQueue max [] q inv = inv
run-IsQueue max (c ∷ cs) q inv = run-IsQueue max cs (step max c q) (step-IsQueue max c q inv)
