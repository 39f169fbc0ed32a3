-- ===== src/Execution/Commands.antt =====
-- precheckCommands of internal/execution/transitions.go: the checks of a batch against the state
-- before any of it is applied.
use skald.Prelude.{
  String, Bool, true, false, Option, none, some, List, [], ◌∷◌, nat_eq, string_eq, if◌then◌else◌,
  Outcome, ok, err, panic,
}
use skald.Prelude.GoMap
use skald.Prelude.GoMap.{GoMap}
use skald.History.Command.{Command, CommandType}
use skald.Execution.State.{
  MutableState, ExecError, illegal, activity_id_pending, activity_id_reused, timer_already_pending,
  timer_id_reused, timer_not_pending, activity_not_pending,
}

abbrev pub has : {K V : Type 0} → (K → Option V) → K → Bool
has get k = elim (get k) [ none ↦ false | some v ↦ true ]

-- The maps seenActivityIDs and seenTimerIDs.
pub record Seen : Type 0 where
  pub activity_ids : GoMap String (Unit {0})
  pub timer_ids : GoMap String (Unit {0})

abbrev pub refuse_unless_new : Bool → Bool → ExecError → ExecError → Seen → Outcome ExecError Seen
refuse_unless_new pending seen e f seen' =
    if pending then err e else if seen then err f else ok seen'

-- One round of precheckCommands. A sub-struct that is nil is a nil dereference.
unfoldable pub precheck_by_type :
    MutableState → Seen → CommandType → Command → Outcome ExecError Seen
precheck_by_type s seen CommandType.schedule_activity_task c = elim c.schedule_activity [
  | none ↦ panic
  | some a ↦
      refuse_unless_new (has (GoMap.get s.activity_ids) a.activity_id)
        (has (GoMap.get seen.activity_ids) a.activity_id) (illegal activity_id_pending)
        (illegal activity_id_reused)
        (record seen { activity_ids = GoMap.put seen.activity_ids a.activity_id tt })
]
precheck_by_type s seen CommandType.start_timer c = elim c.start_timer_cmd [
  | none ↦ panic
  | some a ↦
      refuse_unless_new (has (GoMap.get s.timer_ids) a.timer_id)
        (has (GoMap.get seen.timer_ids) a.timer_id) (illegal timer_already_pending)
        (illegal timer_id_reused)
        (record seen { timer_ids = GoMap.put seen.timer_ids a.timer_id tt })
]
precheck_by_type s seen CommandType.cancel_timer c = elim c.cancel_timer_cmd [
  | none ↦ panic
  | some a ↦
      if has (GoMap.get s.timers) a.started_event_id
      then ok seen
      else err (illegal timer_not_pending)
]
precheck_by_type s seen CommandType.request_cancel_activity_task c =
    elim c.request_cancel_activity [
      | none ↦ panic
      | some a ↦
          if has (GoMap.get s.activities) a.scheduled_event_id
          then ok seen
          else err (illegal activity_not_pending)
    ]
precheck_by_type s seen _ c = ok seen

abbrev seen_then :
    Outcome ExecError Seen → (Seen → Outcome ExecError (Unit {0})) → Outcome ExecError (Unit {0})
seen_then (ok seen) f = f seen
seen_then (err e) f = err e
seen_then panic f = panic

-- precheckCommands
unfoldable pub precheck_commands : MutableState → Seen → List Command → Outcome ExecError (Unit {0})
precheck_commands s seen [] = ok tt
precheck_commands s seen (c ∷ cs) =
    seen_then (precheck_by_type s seen c.command_type c) (λ seen'. precheck_commands s seen' cs)

abbrev pub nothing_seen : Seen
nothing_seen = record { activity_ids = GoMap.empty; timer_ids = GoMap.empty }
