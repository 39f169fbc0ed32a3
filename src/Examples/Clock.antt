-- ===== src/Examples/Clock.antt =====
-- A virtual clock with three timers, two of which are due at once.
use skald.Prelude.{ℕ, suc, ◌≡◌, refl, some, [], ◌∷◌, length, List, nat_eq, arith, true}
use skald.Prelude.Int.{pos, ◌+ℤ◌}
use skald.Prelude.GoMap
use skald.Clock.{
  Virtual, VirtualTimer, new_virtual, advance, advance_to, fire, without, earliest_due,
  earliest_from, is_armed,
}
use skald.Clock.Armed.{deadline_of, is_distinct}
use skald.Clock.Advance.{IsAdvanced}
use skald.Clock.Calls.{Call, arm, rearm, run, run-advance}
use skald.Clock.Order.{earliest_due_unordered}

abbrev three_timers : List Call
three_timers = arm (pos 20) ∷ arm (pos 10) ∷ arm (pos 50) ∷ rearm 1 (pos 20) ∷ []

abbrev armed : Virtual
armed = run three_timers (new_virtual (pos 100))

run-advance_example :
    (w : Virtual) × (advance (suc (length armed.timers)) (pos 30) armed ≡ some w)
    × IsAdvanced (armed.now +ℤ pos 30) armed w
run-advance_example = run-advance (pos 100) three_timers (pos 30) refl

abbrev first : VirtualTimer
first = record { id = 0; deadline = pos 120 }

abbrev second : VirtualTimer
second = record { id = 1; deadline = pos 120 }

abbrev clock_of : List VirtualTimer → Virtual
clock_of ts = record { now = pos 100; next_id = 2; timers = ts; ticks = GoMap.empty }

same_deadlines : (i : ℕ) → deadline_of i (first ∷ second ∷ []) ≡ deadline_of i (second ∷ first ∷ [])
unfolding deadline_of
same_deadlines i = ground arith

distinct : is_distinct (first ∷ second ∷ []) ≡ true
unfolding is_distinct is_armed
distinct = refl

distinct_turned : is_distinct (second ∷ first ∷ []) ≡ true
unfolding is_distinct is_armed
distinct_turned = refl

earliest_due_unordered_example :
    earliest_due (pos 130) (clock_of (first ∷ second ∷ []))
    ≡ earliest_due (pos 130) (clock_of (second ∷ first ∷ []))
earliest_due_unordered_example =
    earliest_due_unordered (pos 130) (clock_of (first ∷ second ∷ []))
      (clock_of (second ∷ first ∷ [])) distinct distinct_turned same_deadlines

-- The timers that are due have their ticks, and the third one stays.
fired :
    advance 4 (pos 30) (clock_of (first ∷ second ∷ record { id = 2; deadline = pos 150 } ∷ []))
    ≡ some (record {
      now = pos 130;
      next_id = 2;
      timers = record { id = 2; deadline = pos 150 } ∷ [];
      ticks = GoMap.put (GoMap.put GoMap.empty 0 (pos 120)) 1 (pos 120);
    })
unfolding advance advance_to fire without earliest_from ◌+ℤ◌ GoMap.get GoMap.put
fired = refl
