-- ===== src/Examples/Matching.antt =====
-- Queues and matchers with concrete tasks.
use skald.Prelude.{
  ℕ, ◌+◌, ◌≡◌, ◌≢◌, ◌↔◌, ◌≤◌, refl, true, false, none, some, List, [], ◌∷◌, ◌++◌, total, length,
  among, string_eq, arith, ◌⊎◌, ◌||◌, ◌==◌, if◌then◌else◌,
}
use skald.Prelude.Int.{pos, pos_part}
use skald.Prelude.GoMap
use skald.Matching.Task.{Task, kind_workflow, kind_activity, QueueKey, key_eq}
use skald.Matching.Queue.{Queue, new_queue, handed, park, offer, take_backlog, receive, unpark}
use skald.Matching.Calls.{Call, offers, takes, parks, drains, new_ledger, run, step, record_calls}
use skald.Matching.Calls.Keeps.{run-IsQueue, new_queue-IsQueue}
use skald.Matching.Calls.Conserved
use skald.Matching.Calls.Conserved.{run-held}
use skald.Matching.Calls.Ordered.{run-backlog}
use skald.Matching.Calls.Delivered.{offer-run-unpark}
use skald.Matching.Calls.Gap.{offer-between}
use skald.Matching.Matcher.{
  Matcher, Config, new, add, poll_begin, poll_closed, poll_give_up, close, queue_at, backlog_full,
  closed_matcher, added, offer_to, stamped,
}
use skald.Matching.Matcher.Adds.{add_full_iff, get-add}
use skald.Matching.Matcher.Closing.{close_lem, offer_to-close, in_channel}
use skald.Matching.Matcher.Requests.{
  adds, polls, Request, perform, perform_each, reachable-IsMatcher,
}
use skald.Matching.Matcher.Laws.{IsMatcher}

abbrev task : ℕ → Task
task id = record {
  namespace = "default";
  task_queue = "orders";
  execution = record { workflow_id = "order-1"; run_id = "run-1" };
  scheduled_event_id = id;
  attempt = pos 1;
  enqueued_at = pos 1000;
}

abbrev one_parked : Queue
one_parked = run 2 (parks ∷ []) new_queue

-- Two tasks join the backlog, a poller gets the first, and the queue is drained.
abbrev calls : List Call
calls = offers (task 2) ∷ offers (task 5) ∷ takes ∷ parks ∷ drains ∷ []

run-held_example :
    total (λ t. t.scheduled_event_id) (record_calls 2 calls new_queue new_ledger).accepted
    ≡ total (λ t. t.scheduled_event_id) (record_calls 2 calls new_queue new_ledger).returned
      + total (λ t. t.scheduled_event_id) (record_calls 2 calls new_queue new_ledger).discarded
      + total (λ t. t.scheduled_event_id) (run 2 calls new_queue).backlog
      + total (Conserved.in_channel (λ t. t.scheduled_event_id)) (run 2 calls new_queue).store
run-held_example = run-held (λ t. t.scheduled_event_id) 2 calls

run-backlog_example :
    ((record_calls 2 calls new_queue new_ledger).joined
      ≡ (record_calls 2 calls new_queue new_ledger).taken ++ (run 2 calls new_queue).backlog)
    × (length (run 2 calls new_queue).backlog ≤ 2)
run-backlog_example = run-backlog 2 calls

one_parked-waiters : one_parked.waiters ≡ 0 ∷ []
unfolding run step park
one_parked-waiters = refl

-- The matcher is closed before the poll returns.
offer-run-unpark_example :
    ((offer (task 2) 2 one_parked).0 ≡ handed 0)
    × ((receive 0 (run 2 (parks ∷ drains ∷ []) (offer (task 2) 2 one_parked).1)).0 ≡ some (task 2))
    × ((unpark 0 (run 2 (parks ∷ drains ∷ []) (offer (task 2) 2 one_parked).1)).0 ≡ some (task 2))
unfolding run step park
offer-run-unpark_example =
    offer-run-unpark 2 (task 2) (parks ∷ drains ∷ []) one_parked 0 []
      (run-IsQueue 2 (parks ∷ []) new_queue new_queue-IsQueue) one_parked-waiters (refl, (refl, tt))

offer-between_example :
    ((take_backlog new_queue).0 ≡ none)
    × ((run 2 (takes ∷ offers (task 2) ∷ parks ∷ []) new_queue).backlog ≡ task 2 ∷ [])
    × ((run 2 (takes ∷ offers (task 2) ∷ parks ∷ []) new_queue).waiters ≡ 0 ∷ [])
    × ((offer (task 5) 2 (run 2 (takes ∷ offers (task 2) ∷ parks ∷ []) new_queue)).0 ≡ handed 1)
offer-between_example =
    offer-between 2 (task 2) (task 5) new_queue new_queue-IsQueue refl refl (omega arith)

abbrev small : Config
small = record { poll_timeout = pos 0; max_backlog = pos 1 }

abbrev activity_queue : QueueKey
activity_queue = record { namespace = "default"; task_queue = "orders"; kind = kind_activity }

abbrev workflow_queue : QueueKey
workflow_queue = record { namespace = "default"; task_queue = "orders"; kind = kind_workflow }

-- A matcher with one task on the backlog of its workflow queue and a poller at its activity queue.
abbrev requests : List Request
requests = adds kind_workflow (task 2) (pos 0) ∷ polls activity_queue ∷ []

abbrev matcher : Matcher
matcher = perform_each requests (new small)

reachable-IsMatcher_example : IsMatcher matcher
reachable-IsMatcher_example = reachable-IsMatcher small requests

matcher_facts :
    (matcher.closed ≡ false)
    × ((queue_at workflow_queue matcher).waiters ≡ [])
    × (length (queue_at workflow_queue matcher).backlog ≡ 1)
    × (among 0 (queue_at activity_queue matcher).waiters ≡ true)
    × (1 ≤ pos_part matcher.max_backlog)
unfolding perform_each perform poll_begin add new take_backlog GoMap.get GoMap.put offer park
matcher_facts = (refl, refl, refl, refl, omega arith)

-- The backlog has room for one task, which is there.
add_full_iff_example :
    (((add kind_workflow (task 5) (pos 0) matcher).0 ≡ backlog_full) ↔ (
      ((queue_at workflow_queue matcher).waiters ≡ [])
      × (pos_part matcher.max_backlog ≤ length (queue_at workflow_queue matcher).backlog)))
    × (((add kind_workflow (task 5) (pos 0) matcher).0 ≡ added)
        ⊎ ((add kind_workflow (task 5) (pos 0) matcher).0 ≡ backlog_full))
add_full_iff_example =
    add_full_iff kind_workflow (task 5) (pos 0) matcher (reachable-IsMatcher small requests)
      matcher_facts.0 refl

other_kind : activity_queue ≢ workflow_queue
other_kind e = cc

get-add_example :
    (GoMap.get (add kind_workflow (task 5) (pos 0) matcher).1.queues activity_queue
      ≡ GoMap.get matcher.queues activity_queue)
    × (queue_at workflow_queue (add kind_workflow (task 5) (pos 0) matcher).1 ≡ (
        if matcher.closed || (task 5).task_queue == ""
        then queue_at workflow_queue matcher
        else (offer
            (stamped (pos 0) (task 5))
            (pos_part matcher.max_backlog)
            (queue_at workflow_queue matcher)).1))
get-add_example = get-add kind_workflow (task 5) (pos 0) matcher activity_queue other_kind

-- At its workflow queue the matcher has a task, and at its activity queue a poller.
close_lem_example :
    (add kind_workflow (task 5) (pos 0) (close matcher) ≡ (closed_matcher, close matcher))
    × (poll_begin workflow_queue (close matcher) ≡ (poll_closed, close matcher))
    × ((queue_at workflow_queue (close matcher)).backlog ≡ [])
    × ((queue_at workflow_queue (close matcher)).waiters ≡ [])
    × ((poll_give_up true workflow_queue 0 (close matcher)).0 ≡ (
        if among 0 (queue_at workflow_queue matcher).waiters
        then none
        else in_channel 0 (queue_at workflow_queue matcher)))
close_lem_example =
    close_lem matcher workflow_queue kind_workflow (task 5) (pos 0) 0 true
      (reachable-IsMatcher small requests) matcher_facts.0

offer_to-close_example :
    ((offer_to activity_queue (task 5) (close matcher)).0 ≡ added)
    × ((offer_to activity_queue (task 5) (close matcher)).1.closed ≡ true)
    × ((queue_at activity_queue (offer_to activity_queue (task 5) (close matcher)).1).backlog
        ≡ task 5 ∷ [])
offer_to-close_example =
    offer_to-close matcher activity_queue (task 5) matcher_facts.0 matcher_facts.4
