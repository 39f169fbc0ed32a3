-- ===== src/Clock/Calls.antt =====
-- Calls on a virtual clock, in the order in which they take its lock.
use skald.Prelude.{
  ℕ, suc, ◌≤◌, ◌≡◌, refl, true, false, Option, none, some, List, [], ◌∷◌, length, if◌then◌else◌,
  ltb, inl, inr, arith, Bool-cases, nat_eq,
}
use skald.Prelude.Int.{pos, ◌+ℤ◌, ltb_ℤ}
use skald.Prelude.GoMap
use skald.History.Event.{Time, Duration}
use skald.Clock.{Virtual, new_virtual, is_armed, deliver, advance, new_timer, stop, reset}
use skald.Clock.Armed.{
  is_distinct, is_armed-without, is_distinct-without, is_armed-later, is_distinct-later,
}
use skald.Clock.Advance.{IsAdvanced, advance-returns}

-- A receive takes what is in the channel; Stop and Reset are called on a timer that NewTimer
-- returned.
pub data Call : Type 0 where
  arm : Duration → Call
  disarm : ℕ → Call
  rearm : ℕ → Duration → Call
  take_tick : ℕ → Call
  forward : Duration → Call

abbrev returned : Option Virtual → Virtual → Virtual
returned none v = v
returned (some w) v = w

unfoldable pub call : Call → Virtual → Virtual
call (arm d) v = (new_timer d v).1
call (disarm id) v = if ltb id v.next_id then (stop id v).1 else v
call (rearm id d) v = if ltb id v.next_id then (reset id d v).1 else v
call (take_tick id) v = record v { ticks = GoMap.delete v.ticks id }
call (forward d) v = returned (advance (suc (length v.timers)) d v) v

unfoldable pub run : List Call → Virtual → Virtual
run [] v = v
run (c ∷ cs) v = run cs (call c v)

-- The ids of the armed timers differ, and were given out.
pub record IsClock (v : Virtual) : Type 0 where
  pub distinct : is_distinct v.timers ≡ true
  pub given : (i : ℕ) → v.next_id ≤ i → is_armed i v.timers ≡ false

deliver-timers : (id : ℕ) (at : Time) (v : Virtual) → (deliver id at v).timers ≡ v.timers
deliver-timers id at v = ground arith

deliver-next_id : (id : ℕ) (at : Time) (v : Virtual) → (deliver id at v).next_id ≡ v.next_id
deliver-next_id id at v = ground arith

new_timer-IsClock : (d : Duration) (v : Virtual) → IsClock v → IsClock (new_timer d v).1
unfolding new_timer is_distinct is_armed
new_timer-IsClock d v k = record {
  distinct = ground (arith, k.distinct, k.given v.next_id);
  given = λ i h. ground (arith, k.given i);
}

stop-IsClock : (id : ℕ) (v : Virtual) → IsClock v → IsClock (stop id v).1
unfolding stop
stop-IsClock id v k = record {
  distinct = ground (arith, k.distinct, is_distinct-without id v.timers);
  given = λ i h. ground (arith, k.given i, is_armed-without id i v.timers);
}

reset-IsClock :
    (id : ℕ) (d : Duration) (v : Virtual)
    → ltb id v.next_id ≡ true
    → IsClock v
    → IsClock (reset id d v).1
unfolding reset is_distinct is_armed
reset-IsClock id d v l k = record {
  distinct =
      ground (arith, k.distinct, is_distinct-without id v.timers, is_armed-without id id v.timers);
  given = λ i h. ground (arith, k.given i, is_armed-without id i v.timers);
}

IsAdvanced-IsClock : (target : Time) (v w : Virtual) → IsAdvanced target v w → IsClock v → IsClock w
IsAdvanced-IsClock target v w a k = record {
  distinct = rw a.timers (is_distinct-later target v.timers k.distinct);
  given =
      λ i h. rw a.timers (is_armed-later target i v.timers (k.given i (ground (arith, a.next_id))));
}

advance_nothing :
    (d : Duration) (v : Virtual) (n : ℕ) → ltb_ℤ (pos 0) d ≡ false → advance n d v ≡ some v
unfolding advance
advance_nothing d v n l = ground (arith, l)

returned-IsClock :
    (o : Option Virtual) (v w : Virtual) → o ≡ some w → IsClock w → IsClock (returned o v)
returned-IsClock o v w e k = rw e k

call-IsClock : (c : Call) (v : Virtual) → IsClock v → IsClock (call c v)
unfolding call
call-IsClock (arm d) v k = new_timer-IsClock d v k
call-IsClock (disarm id) v k = elim (Bool-cases (ltb id v.next_id)) [
  | inl l ↦ rw l (stop-IsClock id v k)
  | inr l ↦ rw l k
]
call-IsClock (rearm id d) v k = elim (Bool-cases (ltb id v.next_id)) [
  | inl l ↦ rw l (reset-IsClock id d v l k)
  | inr l ↦ rw l k
]
call-IsClock (take_tick id) v k = record { distinct = k.distinct; given = k.given }
call-IsClock (forward d) v k = elim (Bool-cases (ltb_ℤ (pos 0) d)) [
  | inl l ↦
      let r = advance-returns d v k.distinct l in
      returned-IsClock _ v r.0 r.1 (IsAdvanced-IsClock (v.now +ℤ d) v r.0 r.2 k)
  | inr l ↦ returned-IsClock _ v v (advance_nothing d v (suc (length v.timers)) l) k
]

run-IsClock : (cs : List Call) (v : Virtual) → IsClock v → IsClock (run cs v)
unfolding run
run-IsClock [] v k = k
run-IsClock (c ∷ cs) v k = run-IsClock cs (call c v) (call-IsClock c v k)

new_virtual-IsClock : (start : Time) → IsClock (new_virtual start)
unfolding is_distinct is_armed
new_virtual-IsClock start = record { distinct = refl; given = λ i h. refl }

-- After any calls on a new virtual clock, Advance by a positive duration returns, if its loop may
-- take one turn more than there are timers armed. The clock then stands at the end of the window,
-- and the timers that stay armed are those with a later deadline. The channel of a timer that was
-- due holds the timer's own deadline, unless it held a tick before, which it keeps; every other
-- channel is as it was.
pub run-advance :
    (start : Time) (cs : List Call) (d : Duration)
    → ltb_ℤ (pos 0) d ≡ true
    → (w : Virtual) × (advance
          (suc (length (run cs (new_virtual start)).timers))
          d
          (run cs (new_virtual start))
        ≡ some w)
      × IsAdvanced ((run cs (new_virtual start)).now +ℤ d) (run cs (new_virtual start)) w
run-advance start cs d p =
    advance-returns d (run cs (new_virtual start))
      (run-IsClock cs (new_virtual start) (new_virtual-IsClock start)).distinct p
