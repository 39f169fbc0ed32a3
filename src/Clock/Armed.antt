-- ===== src/Clock/Armed.antt =====
-- Removing a timer, and finding the earliest one.
use skald.Prelude.{
  ℕ, suc, ◌≡◌, refl, Bool, true, false, not, Option, none, some, List, [], ◌∷◌, length,
  if◌then◌else◌, ◌==◌, ◌&&◌, ◌⊎◌, inl, inr, arith, Bool-cases, nat_eq,
}
use skald.Prelude.Int.{ltb_ℤ}
use skald.History.Event.{Time}
use skald.Clock.{VirtualTimer, without, is_armed, best_of, earliest_from}

-- The deadline of the timer with this id.
unfoldable pub deadline_of : ℕ → List VirtualTimer → Option Time
deadline_of id [] = none
deadline_of id (t ∷ ts) = if t.id == id then some t.deadline else deadline_of id ts

unfoldable pub is_distinct : List VirtualTimer → Bool
is_distinct [] = true
is_distinct (t ∷ ts) = not (is_armed t.id ts) && is_distinct ts

-- The timers that are due after a time.
unfoldable pub later : Time → List VirtualTimer → List VirtualTimer
later target [] = []
later target (t ∷ ts) =
    let rest = later target ts in if ltb_ℤ target t.deadline then t ∷ rest else rest

pub is_armed-without :
    (i j : ℕ) (ts : List VirtualTimer) → is_armed j (without i ts) ≡ (not (i == j) && is_armed j ts)
unfolding is_armed without
is_armed-without i j [] = ground arith
is_armed-without i j (t ∷ ts) = ground (arith, is_armed-without i j ts)

pub is_distinct-without :
    (i : ℕ) (ts : List VirtualTimer) → is_distinct ts ≡ true → is_distinct (without i ts) ≡ true
unfolding is_distinct without
is_distinct-without i [] h = h
is_distinct-without i (t ∷ ts) h =
    ground (arith, is_distinct-without i ts, is_armed-without i t.id ts)

pub without-absent : (i : ℕ) (ts : List VirtualTimer) → is_armed i ts ≡ false → without i ts ≡ ts
unfolding is_armed without
without-absent i [] h = refl
without-absent i (t ∷ ts) h = ground (arith, without-absent i ts)

pub deadline_of-without :
    (i j : ℕ) (ts : List VirtualTimer)
    → deadline_of j (without i ts) ≡ (if i == j then none else deadline_of j ts)
unfolding deadline_of without
deadline_of-without i j [] = ground arith
deadline_of-without i j (t ∷ ts) = ground (arith, deadline_of-without i j ts)

pub deadline_of-absent :
    (i : ℕ) (ts : List VirtualTimer) → is_armed i ts ≡ false → deadline_of i ts ≡ none
unfolding deadline_of is_armed
deadline_of-absent i [] h = refl
deadline_of-absent i (t ∷ ts) h = ground (arith, deadline_of-absent i ts)

-- A timer that is armed is removed.
pub length-without :
    (i : ℕ) (d : Time) (ts : List VirtualTimer)
    → is_distinct ts ≡ true
    → deadline_of i ts ≡ some d
    → length ts ≡ suc (length (without i ts))
unfolding is_distinct deadline_of without
length-without i d [] h e = cc
length-without i d (t ∷ ts) h e = ground (arith, length-without i d ts, without-absent i ts)

pub later-without :
    (target : Time) (i : ℕ) (d : Time) (ts : List VirtualTimer)
    → is_distinct ts ≡ true
    → deadline_of i ts ≡ some d
    → ltb_ℤ target d ≡ false
    → later target (without i ts) ≡ later target ts
unfolding is_distinct deadline_of without later
later-without target i d [] h e l = refl
later-without target i d (t ∷ ts) h e l =
    ground (arith, later-without target i d ts, without-absent i ts)

pub is_armed-later :
    (target : Time) (i : ℕ) (ts : List VirtualTimer)
    → is_armed i ts ≡ false
    → is_armed i (later target ts) ≡ false
unfolding is_armed later
is_armed-later target i [] h = h
is_armed-later target i (t ∷ ts) h = ground (arith, is_armed-later target i ts)

pub is_distinct-later :
    (target : Time) (ts : List VirtualTimer)
    → is_distinct ts ≡ true
    → is_distinct (later target ts) ≡ true
unfolding is_distinct later
is_distinct-later target [] h = h
is_distinct-later target (t ∷ ts) h =
    ground (arith, is_distinct-later target ts, is_armed-later target t.id ts)

-- What is found is the best timer at the start, or one of the list that is due.
pub record IsFound (target : Time) (t : VirtualTimer) (ts : List VirtualTimer) : Type 0 where
  pub armed : deadline_of t.id ts ≡ some t.deadline
  pub due : ltb_ℤ target t.deadline ≡ false

IsFound-cons :
    (target : Time) (t x : VirtualTimer) (ts : List VirtualTimer)
    → is_distinct (x ∷ ts) ≡ true
    → IsFound target t ts
    → IsFound target t (x ∷ ts)
unfolding is_distinct deadline_of
IsFound-cons target t x ts h f = record {
  armed = ground (arith, f.armed, deadline_of-absent t.id ts);
  due = f.due;
}

best_of-cases :
    (best : Option VirtualTimer) (x : VirtualTimer)
    → (best_of best x ≡ x) ⊎ (best ≡ some (best_of best x))
best_of-cases none x = inl refl
best_of-cases (some b) x = ground arith

best_of-IsFound :
    (target : Time) (best : Option VirtualTimer) (t x : VirtualTimer) (ts : List VirtualTimer)
    → ltb_ℤ target x.deadline ≡ false
    → best_of best x ≡ t
    → (best ≡ some t) ⊎ IsFound target t (x ∷ ts)
unfolding deadline_of
best_of-IsFound target best t x ts l e = elim (best_of-cases best x) [
  | inl q ↦ inr (record { armed = ground (arith, q, e); due = ground (arith, q, e) })
  | inr q ↦ inl (ground (arith, q, e))
]

pub earliest_from-IsFound :
    (target : Time) (best : Option VirtualTimer) (t : VirtualTimer) (ts : List VirtualTimer)
    → is_distinct ts ≡ true
    → earliest_from target best ts ≡ some t
    → (best ≡ some t) ⊎ IsFound target t ts
unfolding earliest_from is_distinct
earliest_from-IsFound target best t [] h e = inl e
earliest_from-IsFound target best t (x ∷ ts) h e = elim (Bool-cases (ltb_ℤ target x.deadline)) [
  | inl l ↦ elim (earliest_from-IsFound target best t ts (ground arith) (ground (arith, l))) [
    | inl q ↦ inl q
    | inr f ↦ inr (IsFound-cons target t x ts h f)
  ]
  | inr l ↦
      elim (earliest_from-IsFound target (some (best_of best x)) t ts (ground arith)
        (ground (arith, l))) [
          | inl q ↦ best_of-IsFound target best t x ts l (ground (arith, q))
          | inr f ↦ inr (IsFound-cons target t x ts h f)
        ]
]

earliest_from-some :
    (target : Time) (b : VirtualTimer) (ts : List VirtualTimer)
    → ¬ (earliest_from target (some b) ts ≡ none)
unfolding earliest_from
earliest_from-some target b [] e = cc
earliest_from-some target b (x ∷ ts) e =
    ground
      (arith, earliest_from-some target b ts, earliest_from-some target (best_of (some b) x) ts)

-- If no timer is found, all are due later.
pub record IsLater (target : Time) (ts : List VirtualTimer) : Type 0 where
  pub all : later target ts ≡ ts
  pub none_due : (i : ℕ) (d : Time) → deadline_of i ts ≡ some d → ltb_ℤ target d ≡ true

pub earliest_from-IsLater :
    (target : Time) (ts : List VirtualTimer)
    → earliest_from target none ts ≡ none
    → IsLater target ts
unfolding earliest_from later deadline_of
earliest_from-IsLater target [] e = record { all = refl; none_due = λ i d p. cc }
earliest_from-IsLater target (x ∷ ts) e = elim (Bool-cases (ltb_ℤ target x.deadline)) [
  | inl l ↦
      let r = earliest_from-IsLater target ts (ground (arith, l)) in
      record {
        all = ground (arith, l, r.all);
        none_due = λ i d p. ground (arith, l, r.none_due i d);
      }
  | inr l ↦ elim (earliest_from-some target x ts (ground (arith, l))) [ ]
]
