-- ===== src/Matching/Matcher/Requests.antt =====
-- The calls on a matcher as data, in the order in which their critical sections come.
use skald.Prelude.{ℕ, Bool, List, [], ◌∷◌, Bool-cases, inl, inr, arith}
use skald.Prelude.GoMap
use skald.History.Event.{Time}
use skald.Matching.Task.{Task, Kind, QueueKey, key_eq}
use skald.Matching.Queue.{Queue}
use skald.Matching.Matcher.{
  Config, Matcher, new, add, poll_begin, poll_receive, poll_give_up, close,
}
use skald.Matching.Matcher.Laws.{
  IsMatcher, add-IsMatcher, poll_begin-IsMatcher, poll_receive-IsMatcher, poll_give_up-IsMatcher,
}
use skald.Matching.Matcher.Closing.{close-IsMatcher}

pub data Request : Type 0 where
  adds : Kind → Task → Time → Request
  polls : QueueKey → Request
  receives : QueueKey → ℕ → Request
  gives_up : Bool → QueueKey → ℕ → Request
  closes : Request

-- The matcher that a call leaves, whatever it returned.
unfoldable pub perform : Request → Matcher → Matcher
perform (adds kind t now) m = (add kind t now m).1
perform (polls k) m = (poll_begin k m).1
perform (receives k w) m = (poll_receive k w m).1
perform (gives_up timed_out k w) m = (poll_give_up timed_out k w m).1
perform closes m = close m

unfoldable pub perform_each : List Request → Matcher → Matcher
perform_each [] m = m
perform_each (r ∷ rs) m = perform_each rs (perform r m)

new-IsMatcher : (cfg : Config) → IsMatcher (new cfg)
unfolding new
new-IsMatcher cfg = record { well = λ k q e. ground (arith, GoMap.get-empty {V = Queue} k) }

close-IsMatcher_any : (m : Matcher) → IsMatcher m → IsMatcher (close m)
unfolding close
close-IsMatcher_any m inv = elim (Bool-cases m.closed) [
  | inl e ↦ simp e inv
  | inr e ↦ close-IsMatcher m e inv
]

perform-IsMatcher : (r : Request) (m : Matcher) → IsMatcher m → IsMatcher (perform r m)
unfolding perform
perform-IsMatcher (adds kind t now) m inv = add-IsMatcher kind t now m inv
perform-IsMatcher (polls k) m inv = poll_begin-IsMatcher k m inv
perform-IsMatcher (receives k w) m inv = poll_receive-IsMatcher k m w inv
perform-IsMatcher (gives_up timed_out k w) m inv = poll_give_up-IsMatcher k m timed_out w inv
perform-IsMatcher closes m inv = close-IsMatcher_any m inv

each-IsMatcher : (rs : List Request) (m : Matcher) → IsMatcher m → IsMatcher (perform_each rs m)
unfolding perform_each
each-IsMatcher [] m inv = inv
each-IsMatcher (r ∷ rs) m inv = each-IsMatcher rs (perform r m) (perform-IsMatcher r m inv)

-- After any sequence of calls on a new matcher, each of its queues is well-formed: the waiters on
-- its list are idle and stand there once, and every other waiter is settled.
pub reachable-IsMatcher : (cfg : Config) (rs : List Request) → IsMatcher (perform_each rs (new cfg))
reachable-IsMatcher cfg rs = each-IsMatcher rs (new cfg) (new-IsMatcher cfg)
