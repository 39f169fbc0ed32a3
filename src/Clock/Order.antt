-- ===== src/Clock/Order.antt =====
-- earliestDue does not depend on the order of iteration over the map.
use skald.Prelude.{
  ℕ, ◌≡◌, refl, sym, ap, ◌∙◌, true, false, Option, none, some, List, [], ◌∷◌, ◌==◌, inl, inr, arith,
  Bool-cases, Option-cases, nat_eq,
}
use skald.Prelude.Int.{ltb_ℤ}
use skald.History.Event.{Time}
use skald.Clock.{VirtualTimer, Virtual, is_before, best_of, earliest_from, earliest_due}
use skald.Clock.Armed.{
  deadline_of, is_distinct, IsFound, earliest_from-IsFound, earliest_from-IsLater,
}

is_before_trans :
    (a b c : VirtualTimer) → is_before a b ≡ false → is_before b c ≡ false → is_before a c ≡ false
is_before_trans a b c h k = ground arith

not_before_best :
    (best : Option VirtualTimer) (x b : VirtualTimer)
    → best ≡ some b
    → is_before b (best_of best x) ≡ false
not_before_best best x b e = rw e (ground arith)

not_before_new :
    (best : Option VirtualTimer) (x : VirtualTimer) → is_before x (best_of best x) ≡ false
not_before_new none x = ground arith
not_before_new (some b) x = ground arith

not_before_same :
    (best : Option VirtualTimer) (x : VirtualTimer) (i : ℕ) (d : Time)
    → (x.id == i) ≡ true
    → x.deadline ≡ d
    → is_before (record { id = i; deadline = d }) (best_of best x) ≡ false
not_before_same best x i d q e = ground (arith, q, e, not_before_new best x)

-- Nothing that the loop has seen comes before what it finds.
earliest_from-best :
    (target : Time) (best : Option VirtualTimer) (t b : VirtualTimer) (ts : List VirtualTimer)
    → earliest_from target best ts ≡ some t
    → best ≡ some b
    → is_before b t ≡ false
unfolding earliest_from
earliest_from-best target best t b [] e q = ground (arith, e, q)
earliest_from-best target best t b (x ∷ ts) e q = elim (Bool-cases (ltb_ℤ target x.deadline)) [
  | inl l ↦ earliest_from-best target best t b ts (ground (arith, l)) q
  | inr l ↦ is_before_trans b (best_of best x) t (not_before_best best x b q) (
      earliest_from-best target (some (best_of best x)) t (best_of best x) ts (ground (arith, l))
        refl)
]

earliest_from-first :
    (target : Time) (best : Option VirtualTimer) (t : VirtualTimer) (i : ℕ) (d : Time)
    (ts : List VirtualTimer)
    → earliest_from target best ts ≡ some t
    → deadline_of i ts ≡ some d
    → ltb_ℤ target d ≡ false
    → is_before (record { id = i; deadline = d }) t ≡ false
unfolding earliest_from deadline_of
earliest_from-first target best t i d [] e p h = cc
earliest_from-first target best t i d (x ∷ ts) e p h = elim (Bool-cases (ltb_ℤ target x.deadline)) [
  | inl l ↦ earliest_from-first target best t i d ts (ground (arith, l)) (ground (arith, l)) h
  | inr l ↦ elim (Bool-cases (x.id == i)) [
    | inl q ↦
        is_before_trans (record { id = i; deadline = d }) (best_of best x) t
          (not_before_same best x i d q (ground (arith, q)))
          (earliest_from-best target (some (best_of best x)) t (best_of best x) ts
            (ground (arith, l)) refl)
    | inr q ↦
        earliest_from-first target (some (best_of best x)) t i d ts (ground (arith, l))
          (ground (arith, q)) h
  ]
]

neither_before : (t u : VirtualTimer) → is_before t u ≡ false → is_before u t ≡ false → t ≡ u
neither_before t u h k = ground arith

module _ (target : Time) (ts us : List VirtualTimer)
    (same : (i : ℕ) → deadline_of i ts ≡ deadline_of i us) where
  found_twice :
      (t u : VirtualTimer)
      → IsFound target t ts
      → earliest_from target none ts ≡ some t
      → IsFound target u us
      → earliest_from target none us ≡ some u
      → t ≡ u
  found_twice t u f p g q =
      neither_before t u
        (earliest_from-first target none u t.id t.deadline us q (sym (same t.id) ∙ f.armed) f.due)
        (earliest_from-first target none t u.id u.deadline ts p (same u.id ∙ g.armed) g.due)

  IsFound-none : (u : VirtualTimer) → earliest_from target none ts ≡ none → ¬ (IsFound target u us)
  IsFound-none u p g =
      let l = earliest_from-IsLater target ts p in
      ground (arith, l.none_due u.id u.deadline (same u.id ∙ g.armed), g.due)

is_found :
    (target : Time) (t : VirtualTimer) (ts : List VirtualTimer)
    → is_distinct ts ≡ true
    → earliest_from target none ts ≡ some t
    → IsFound target t ts
is_found target t ts h e = elim (earliest_from-IsFound target none t ts h e) [
  | inl q ↦ cc
  | inr f ↦ f
]

-- earliestDue does not depend on the order of iteration over the map of timers: two clocks whose
-- armed timers have the same ids and deadlines, and each of which lists an id once, find the same
-- timer, or both find none.
pub earliest_due_unordered :
    (target : Time) (v w : Virtual)
    → is_distinct v.timers ≡ true
    → is_distinct w.timers ≡ true
    → ((i : ℕ) → deadline_of i v.timers ≡ deadline_of i w.timers)
    → earliest_due target v ≡ earliest_due target w
earliest_due_unordered target v w h k same = elim (Option-cases (earliest_due target v)) [
  | inl p ↦ elim (Option-cases (earliest_due target w)) [
    | inl q ↦ p ∙ sym q
    | inr (u, q) ↦
        elim (IsFound-none target v.timers w.timers same u p (is_found target u w.timers k q)) [ ]
  ]
  | inr (t, p) ↦ elim (Option-cases (earliest_due target w)) [
    | inl q ↦
        elim (IsFound-none target w.timers v.timers (λ i. sym (same i)) t q
          (is_found target t v.timers h p)) [ ]
    | inr (u, q) ↦
        p
        ∙ ap some (
            found_twice target v.timers w.timers same t u (is_found target t v.timers h p) p
              (is_found target u w.timers k q) q)
        ∙ sym q
  ]
]
