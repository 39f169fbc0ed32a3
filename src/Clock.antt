-- ===== src/Clock.antt =====
-- internal/clock/clock.go: the virtual clock. Its map of timers is a list in some order of
-- iteration, whose ids differ; a channel is the entry of its timer in `ticks`, with room for one.
use skald.Prelude.{
  ℕ, suc, ◌+◌, ◌*◌, ◌≡◌, Bool, true, false, Option, none, some, List, [], ◌∷◌, length,
  if◌then◌else◌, ltb, ◌==◌, ◌||◌, ◌&&◌, nat_eq, zero,
}
use skald.Prelude.Int.{ℤ, pos, ◌+ℤ◌, ltb_ℤ, leb_ℤ, beq_ℤ}
use skald.Prelude.GoMap
use skald.Prelude.GoMap.{GoMap}
use skald.History.Event.{Time, Duration}
pub mod Armed
pub mod Advance
pub mod Calls
pub mod Order

pub record VirtualTimer : Type 0 where
  pub id : ℕ
  pub deadline : Time

-- `ticks` holds, by timer, what is in the channel and not yet received.
pub record Virtual : Type 0 where
  pub now : Time
  pub next_id : ℕ
  pub timers : List VirtualTimer
  pub ticks : GoMap ℕ Time

-- 2024-01-01 00:00 UTC
abbrev default_start : Time
default_start = pos (738_885 * 86_400 * 1_000_000_000)

-- NewVirtual
abbrev pub new_virtual : Time → Virtual
new_virtual start = record {
  now = if beq_ℤ start (pos 0) then default_start else start;
  next_id = 0;
  timers = [];
  ticks = GoMap.empty;
}

-- delete(v.timers, id)
unfoldable pub without : ℕ → List VirtualTimer → List VirtualTimer
without id [] = []
without id (t ∷ ts) = let rest = without id ts in if t.id == id then rest else t ∷ rest

-- _, armed := v.timers[id]
unfoldable pub is_armed : ℕ → List VirtualTimer → Bool
is_armed id [] = false
is_armed id (t ∷ ts) = t.id == id || is_armed id ts

abbrev pub is_before : VirtualTimer → VirtualTimer → Bool
is_before t best =
    ltb_ℤ t.deadline best.deadline || (beq_ℤ t.deadline best.deadline && ltb t.id best.id)

abbrev pub best_of : Option VirtualTimer → VirtualTimer → VirtualTimer
best_of none t = t
best_of (some best) t = if is_before t best then t else best

-- The loop of earliestDue, from the best timer so far.
unfoldable pub earliest_from : Time → Option VirtualTimer → List VirtualTimer → Option VirtualTimer
earliest_from target best [] = best
earliest_from target best (t ∷ ts) =
    earliest_from target (if ltb_ℤ target t.deadline then best else some (best_of best t)) ts

abbrev pub earliest_due : Time → Virtual → Option VirtualTimer
earliest_due target v = earliest_from target none v.timers

-- A channel that is full keeps what it holds.
abbrev pub deliver : ℕ → Time → Virtual → Virtual
deliver id at v = elim (GoMap.get v.ticks id) [
  | none ↦ record v { ticks = GoMap.put v.ticks id at }
  | some held ↦ v
]

-- One turn of the loop of Advance, for the timer found.
unfoldable pub fire : VirtualTimer → Virtual → Virtual
fire t v = deliver t.id t.deadline (record v { now = t.deadline; timers = without t.id v.timers })

-- The loop of Advance, on fuel.
unfoldable pub advance_to : ℕ → Time → Virtual → Option Virtual
advance_to zero target v = none
advance_to (suc n) target v = elim (earliest_due target v) [
  | none ↦ some (record v { now = target })
  | some t ↦ advance_to n target (fire t v)
]

unfoldable pub advance : ℕ → Duration → Virtual → Option Virtual
advance n d v = if leb_ℤ d (pos 0) then some v else advance_to n (v.now +ℤ d) v

-- NewTimer returns the id of its timer.
unfoldable pub new_timer : Duration → Virtual → ℕ × Virtual
new_timer d v =
    let w = record v { next_id = suc v.next_id } in
    (
      v.next_id,
      (if leb_ℤ d (pos 0)
          then deliver v.next_id v.now w
          else record w { timers = record { id = v.next_id; deadline = v.now +ℤ d } ∷ v.timers }),
    )

unfoldable pub stop : ℕ → Virtual → Bool × Virtual
stop id v =
    if is_armed id v.timers then (true, record v { timers = without id v.timers }) else (false, v)

unfoldable pub reset : ℕ → Duration → Virtual → Bool × Virtual
reset id d v =
    let rest = without id v.timers in
    (
      is_armed id v.timers,
      (if leb_ℤ d (pos 0)
          then deliver id v.now (record v { timers = rest })
          else record v { timers = record { id = id; deadline = v.now +ℤ d } ∷ rest }),
    )

abbrev pub num_timers : Virtual → ℕ
num_timers v = length v.timers
