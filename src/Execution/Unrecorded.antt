-- ===== src/Execution/Unrecorded.antt =====
-- RecordActivityHeartbeat of internal/execution/activity.go and the history.
use skald.Prelude.{
  ℕ, ◌≡◌, ◌≢◌, refl, sym, ap, ◌∙◌, true, Option, some, nat_eq, Outcome, ok, Bool-cases, inl, inr,
}
use skald.Prelude.Int.{pos, ltb_ℤ}
use skald.Prelude.GoMap
use skald.Values.Payload.{Payload}
use skald.History.Event.{Time}
use skald.Execution.State.{MutableState, ActivityState, ExecError, is_started}
use skald.Execution.Append.{rebuild, ◌>>=◌}
use skald.Execution.Activity.{record_activity_heartbeat, pending_activity}
use skald.Execution.Replay.{with_clock}

-- What a heartbeat of a started activity leaves.
heartbeat_facts :
    (s : MutableState) (id : ℕ) (act : ActivityState) (details : Option Payload)
    → GoMap.get s.activities id ≡ some act
    → is_started act ≡ true
    → let (r, t) = record_activity_heartbeat id details s in
      (r ≡ ok act.cancel_requested)
      × (t.events ≡ s.events)
      × (t.namespace ≡ s.namespace)
      × (t.execution ≡ s.execution)
      × (b : ActivityState) × (GoMap.get t.activities id ≡ some b)
      × (b.last_heartbeat_details ≡ details)
unfolding record_activity_heartbeat pending_activity ◌>>=◌
heartbeat_facts s id act details h k = elim (Bool-cases (ltb_ℤ (pos 0) act.heartbeat_timeout)) [
  | inl e ↦ rw (h, k, e) (refl, refl, refl, refl, _, GoMap.get-put_self s.activities id _, refl)
  | inr e ↦ rw (h, k, e) (refl, refl, refl, refl, _, GoMap.get-put_self s.activities id _, refl)
]

-- One replay gives one state, so one activity under an id.
same_activity :
    (s t : MutableState) (c : ℕ → Time) (x : Outcome ExecError MutableState) (id : ℕ)
    (a b : ActivityState)
    → x ≡ ok (with_clock c s)
    → x ≡ ok (with_clock c t)
    → GoMap.get s.activities id ≡ some a
    → GoMap.get t.activities id ≡ some b
    → a ≡ b
same_activity s t c x id a b p q h k = cc

-- RecordActivityHeartbeat of a started activity succeeds and leaves the history as it is. If the
-- details are not the last ones, and Rebuild reproduced the state before the call, then Rebuild does
-- not reproduce the state after it.
pub rebuild-record_activity_heartbeat :
    (s : MutableState) (id : ℕ) (act : ActivityState) (details : Option Payload) (c : ℕ → Time)
    → GoMap.get s.activities id ≡ some act
    → is_started act ≡ true
    → details ≢ act.last_heartbeat_details
    → rebuild s.namespace s.execution s.events c ≡ ok (with_clock c s)
    → let (r, t) = record_activity_heartbeat id details s in
      (r ≡ ok act.cancel_requested)
      × (t.events ≡ s.events)
      × (rebuild t.namespace t.execution t.events c ≢ ok (with_clock c t))
rebuild-record_activity_heartbeat s id act details c h k d r =
    let (x, y, n, e, b, g, l) = heartbeat_facts s id act details h k in
    (
      x,
      y,
      λ p. d (
          sym l
          ∙ ap (λ (a : ActivityState). a.last_heartbeat_details)
              (same_activity (record_activity_heartbeat id details s).1 s c _ id b act p
                (rw (n, e, y) r) g h)),
    )
