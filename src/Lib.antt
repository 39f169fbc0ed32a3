-- ===== src/Lib.antt =====
-- skald: a durable workflow engine. A run is a history of events; its state is a function of that
-- history, and the engine advances it by the methods of `MutableState`.
--
-- Values (pkg/skald): statuses, the classification of errors, retry policies, identifiers. Go's
-- float64 is its bit pattern; the operations on floats are a parameter, the record `Floats`.
-- History (pkg/history): event types, the attributes of events, histories with `validate` and
-- `validate_references` (History.Validate), and the commands of a workflow task with their checks
-- (Command.Validate and ValidateBatch as `validate_command` and `validate_batch`). An event has one
-- of the event types that the constants name; the text of a type is a function of its code, any
-- int32, and the verb %d of the package fmt is a parameter there.
-- Execution (internal/execution): State holds the record `MutableState`, Apply the function `apply`,
-- Append holds AppendEvent and Rebuild, Transitions and Activity the methods of transitions.go and
-- activity.go, Commands precheckCommands, Complete and Closing the batch of a workflow task, Random
-- the jitter. A method is an action `Exec A`: from a state to what it returns (a value, an error or
-- a run-time panic) and the state it leaves, also where it fails half way. Operation lists the
-- methods as data, so that a run is a list of calls. The proofs stand in Keeps (rules for
-- properties that actions keep), Replay, Consistent, Closed, Task, Polls, Batch, Unrecorded, Limits
-- and Placeholder; those on histories in History.Dense, History.Valid and History.EventType.Text.
-- Examples holds concrete runs.
-- Matching (internal/matching): Queue is one task queue, whose waiters are addresses into a heap of
-- channels with room for one task; each of its functions is a critical section of the queue's mutex,
-- and Calls are sequences of them by any number of goroutines, with a ledger of the tasks that went
-- in and out. Matcher holds New, add, poll, Close and Stats; a poll is the call up to its select
-- (poll_begin) and the call of the case that is taken (poll_receive or poll_give_up), and other
-- calls may come in between. The gap between the two critical sections of poll_begin is in Calls.
-- `add` and `close` are each one step; an add that looked at `closed` before Close ran is `offer_to`
-- after `close`.
-- Persistence (internal/persistence, store.go and memory/memory.go): Record holds the types of the
-- contract, Store the state of the store in memory with its keys and timer index, Checks the
-- validation of requests, Plan and Create the two halves of a create, Append AppendHistory, Reads
-- GetExecution and ReadHistory, Maintenance DeleteTimers and Close. A call returns its result and
-- the store that it leaves. Each is the body under the store's lock, for a context that is live and
-- a store that injects no faults. The encoding of an event, which is encoding/json in the program,
-- is a parameter. The index of due timers is the map from keys to timers; the heap over it, which
-- only DueTimers reads, is left out.
-- Timers (internal/timers): New, wait and scan of the service that hands due timers to the engine.
-- Its store, callback, clock and context are the record `Around` of functions on a world.
-- Clock (internal/clock): the virtual clock, with Advance, NewTimer, Stop and Reset; Calls are
-- sequences of them, one after the other. Advance has fuel for the turns of its loop: each turn
-- fires one timer, so that one more than the number of armed timers is enough.
--
-- A time or a duration is an integer number of nanoseconds, with no bound; the clock is the sequence
-- of its readings. Event ids are numbers from 0. The attempt counter wraps as an int32, the jitter
-- hash as a uint64. Maps are GoMap, whose order of iteration no modelled code depends on. All
-- recursion is structural; only Advance has fuel. A shared pointer of an activity is an entry of the
-- map that holds it. The texts of errors are left out, and JSON encodings are not modelled.
--
-- Not modelled: the engine around the run state, the queries of the store (ListExecutions,
-- OpenExecutions, DueTimers) and the SQL store, the goroutine of the timer service, the replay of
-- workflow code, the HTTP front end, client and worker, which use the parts above.
pub mod Prelude
pub mod Values
pub mod History
pub mod Clock
pub mod Execution
pub mod Matching
pub mod Persistence
pub mod Timers
pub mod Examples
