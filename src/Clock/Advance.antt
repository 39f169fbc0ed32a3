-- ===== src/Clock/Advance.antt =====
-- What Advance does.
use skald.Prelude.{
  ℕ, zero, suc, ◌≤◌, ◌≡◌, refl, ◌∙◌, true, Option, none, some, length, if◌then◌else◌, inl, inr,
  arith, Option-cases, nat_eq,
}
use skald.Prelude.Int.{pos, ◌+ℤ◌, ltb_ℤ}
use skald.Prelude.GoMap
use skald.History.Event.{Time, Duration}
use skald.Clock.{VirtualTimer, Virtual, without, earliest_due, fire, advance_to, advance}
use skald.Clock.Armed.{
  deadline_of, is_distinct, later, is_distinct-without, deadline_of-without, length-without,
  later-without, IsFound, earliest_from-IsFound, IsLater, earliest_from-IsLater,
}

-- What the channel of a timer holds once the clock stands at `target`.
abbrev pub tick_at : Time → ℕ → Virtual → Option Time
tick_at target i v = elim (GoMap.get v.ticks i) [
  | some held ↦ some held
  | none ↦ elim (deadline_of i v.timers) [
    | none ↦ none
    | some d ↦ if ltb_ℤ target d then none else some d
  ]
]

-- `w` is `v` with the clock moved to `target`.
pub record IsAdvanced (target : Time) (v w : Virtual) : Type 0 where
  pub now : w.now ≡ target
  pub next_id : w.next_id ≡ v.next_id
  pub timers : w.timers ≡ later target v.timers
  pub ticks : (i : ℕ) → GoMap.get w.ticks i ≡ tick_at target i v

fire-timers : (t : VirtualTimer) (v : Virtual) → (fire t v).timers ≡ without t.id v.timers
unfolding fire
fire-timers t v = ground arith

fire-next_id : (t : VirtualTimer) (v : Virtual) → (fire t v).next_id ≡ v.next_id
unfolding fire
fire-next_id t v = ground arith

fire-tick :
    (target : Time) (t : VirtualTimer) (v : Virtual) (i : ℕ)
    → IsFound target t v.timers
    → tick_at target i (fire t v) ≡ tick_at target i v
unfolding fire
fire-tick target t v i f = ground (
  arith,
  f.armed,
  f.due,
  GoMap.get-put v.ticks t.id i t.deadline,
  deadline_of-without t.id i v.timers,
)

fire-IsAdvanced :
    (target : Time) (t : VirtualTimer) (v w : Virtual)
    → is_distinct v.timers ≡ true
    → IsFound target t v.timers
    → IsAdvanced target (fire t v) w
    → IsAdvanced target v w
fire-IsAdvanced target t v w h f a = record {
  now = a.now;
  next_id = a.next_id ∙ fire-next_id t v;
  timers =
      a.timers
      ∙ (rw (fire-timers t v) (later-without target t.id t.deadline v.timers h f.armed f.due));
  ticks = λ i. a.ticks i ∙ fire-tick target t v i f;
}

abbrev Returns : ℕ → Time → Virtual → Type 0
Returns n target v = (w : Virtual) × (advance_to n target v ≡ some w) × IsAdvanced target v w

at_end_tick :
    (target : Time) (v : Virtual)
    → IsLater target v.timers
    → (i : ℕ) → GoMap.get v.ticks i ≡ tick_at target i v
at_end_tick target v l i = elim (Option-cases (deadline_of i v.timers)) [
  | inl e ↦ ground (arith, e)
  | inr (d, e) ↦ ground (arith, e, l.none_due i d e)
]

at_end :
    (n : ℕ) (target : Time) (v : Virtual) → earliest_due target v ≡ none → Returns (suc n) target v
unfolding advance_to
at_end n target v e =
    let l = earliest_from-IsLater target v.timers e in
    (
      record v { now = target },
      ground (arith, e),
      record {
        now = refl;
        next_id = refl;
        timers = ground (arith, l.all);
        ticks = at_end_tick target v l;
      },
    )

pub advance_to-returns :
    (n : ℕ) (target : Time) (v : Virtual)
    → is_distinct v.timers ≡ true
    → suc (length v.timers) ≤ n
    → Returns n target v
unfolding advance_to
advance_to-returns zero target v h b = ground arith
advance_to-returns (suc n) target v h b = elim (Option-cases (earliest_due target v)) [
  | inl e ↦ at_end n target v e
  | inr (t, e) ↦ elim (earliest_from-IsFound target none t v.timers h e) [
    | inl q ↦ cc
    | inr f ↦
        let r =
          advance_to-returns n target (fire t v)
            (rw (fire-timers t v) (is_distinct-without t.id v.timers h))
            (rw (fire-timers t v)
              (omega (arith, length-without t.id t.deadline v.timers h f.armed))) in
        (r.0, ground (arith, e, r.1), fire-IsAdvanced target t v r.0 h f r.2)
  ]
]

pub advance-returns :
    (d : Duration) (v : Virtual)
    → is_distinct v.timers ≡ true
    → ltb_ℤ (pos 0) d ≡ true
    → (w : Virtual) × (advance (suc (length v.timers)) d v ≡ some w) × IsAdvanced (v.now +ℤ d) v w
unfolding advance
advance-returns d v h p =
    let r = advance_to-returns (suc (length v.timers)) (v.now +ℤ d) v h (omega arith) in
    (r.0, ground (arith, p, r.1), r.2)
