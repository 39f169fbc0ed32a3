-- ===== src/History/Valid.antt =====
-- What History.Validate (pkg/history/history.go) establishes.
use skald.Prelude.{
  ℕ, zero, suc, ◌+◌, ◌≤◌, ◌≡◌, refl, subst, false, some, [], ◌∷◌, ◌⊎◌, inl, inr, length, get_elem?,
  Outcome, ok, err, panic, arith, nat_eq, >>=-eq-ok,
}
use skald.Prelude.Int.{pos, ◌≤ℤ◌}
use skald.History.EventType.{is_terminal}
use skald.History.Attributes.{Attributes, no_attributes, type_of}
use skald.History.Event.{Event, History, Time, get_event}
use skald.History.Dense.{IsDense}
use skald.History.Validate.{
  Refs, Invalid, max_history_events, validate_references, check_event, check_events, validate,
  no_refs,
}

-- No event is earlier than the one before it, the first no earlier than `t`.
abbrev pub AreOrdered : Time → History → Type 0
AreOrdered t [] = Unit
AreOrdered t (e ∷ es) = (t ≤ℤ e.time) × AreOrdered e.time es

-- An event that closes a run is the last.
abbrev pub ClosesLast : History → Type 0
ClosesLast [] = Unit
ClosesLast (e ∷ es) = ((is_terminal (type_of e.attrs) ≡ false) ⊎ (es ≡ [])) × ClosesLast es

references_keep_time :
    (id : ℕ) (a : Attributes) (r r' : Refs)
    → validate_references id a r ≡ ok r'
    → r'.prev_time ≡ r.prev_time
unfolding validate_references
references_keep_time id no_attributes r r' h = ground arith
references_keep_time id _ r r' h = ground arith

check_event_facts :
    (n i : ℕ) (ev : Event) (r r' : Refs)
    → check_event n i ev r ≡ ok r'
    → (ev.id ≡ suc i)
      × (r.prev_time ≤ℤ ev.time)
      × ((is_terminal (type_of ev.attrs) ≡ false) ⊎ (suc i ≡ n))
      × (r'.prev_time ≡ ev.time)
unfolding check_event
check_event_facts n i ev r r' h = (
  ground arith,
  ground arith,
  ground arith,
  ground (arith, references_keep_time ev.id ev.attrs (record r { prev_time = ev.time }) r'),
)

length_zero : (h : History) → length h ≡ 0 → h ≡ []
length_zero [] p = refl
length_zero (e ∷ es) p = absurd (omega (arith, p))

is_last :
    (i n : ℕ) (e : Event) (es : History)
    → n ≡ i + length (e ∷ es)
    → (is_terminal (type_of e.attrs) ≡ false) ⊎ (suc i ≡ n)
    → (is_terminal (type_of e.attrs) ≡ false) ⊎ (es ≡ [])
is_last i n e es p (inl x) = inl x
is_last i n e es p (inr x) = inr (length_zero es (omega (arith, p, x)))

check_events_facts :
    (n i : ℕ) (h : History) (r r' : Refs)
    → n ≡ i + length h
    → check_events n i h r ≡ ok r'
    → IsDense i h × AreOrdered r.prev_time h × ClosesLast h
unfolding check_events
check_events_facts n i [] r r' p h = (tt, tt, tt)
check_events_facts n i (e ∷ es) r r' p h =
    let (q, a, b) = >>=-eq-ok (check_event n i e r) (check_events n (suc i) es) h in
    let (number, time, last, passed) = check_event_facts n i e r q a in
    let (dense, ordered, closes) = check_events_facts n (suc i) es q r' (omega (arith, p)) b in
    (
      (number, dense),
      (time, subst (λ t. AreOrdered t es) passed ordered),
      (is_last i n e es p last, closes),
    )

passed_checks :
    (e : Event) (es : History)
    → validate (e ∷ es) ≡ ok tt
    → (length (e ∷ es) ≤ max_history_events)
      × (r : Refs) × (check_events (length (e ∷ es)) 0 (e ∷ es) no_refs ≡ ok r)
unfolding validate
passed_checks e es v = go (check_events (length (e ∷ es)) 0 (e ∷ es) no_refs) refl
  where
    go :
        (x : Outcome Invalid Refs)
        → check_events (length (e ∷ es)) 0 (e ∷ es) no_refs ≡ x
        → (length (e ∷ es) ≤ max_history_events)
          × (r : Refs) × (check_events (length (e ∷ es)) 0 (e ∷ es) no_refs ≡ ok r)
    go (ok r) p = (ground arith, r, p)
    go (err x) p = absurd (ground arith)
    go panic p = absurd (ground arith)

-- A history that passes Validate has at most MaxHistoryEvents events, ids from 1 on with no gap,
-- times that never go back, and no event after one that closes the run.
pub validate_sound :
    (h : History)
    → validate h ≡ ok tt
    → (length h ≤ max_history_events) × IsDense 0 h × AreOrdered (pos 0) h × ClosesLast h
validate_sound [] v = (omega arith, tt, tt, tt)
validate_sound (e ∷ es) v =
    let (bound, r, p) = passed_checks e es v in
    let (dense, ordered, closes) =
      check_events_facts (length (e ∷ es)) 0 (e ∷ es) no_refs r (omega arith) p in
    (bound, dense, ordered, closes)

dense_get :
    (n : ℕ) (h : History) (i : ℕ) (e : Event)
    → IsDense n h
    → get_elem? h i ≡ some e
    → (e.id ≡ suc (n + i)) × (suc i ≤ length h)
dense_get n [] i e d g = cc
dense_get n (f ∷ es) zero e d g = (ground (arith, d.0), omega arith)
dense_get n (f ∷ es) (suc i) e d g =
    let (p, l) = dense_get (suc n) es i e d.1 g in (omega (arith, p), omega (arith, l))

-- In a history that passes Validate, Get finds the event at each position under its id, which is
-- the position counted from 1.
pub get_event_valid :
    (h : History) (i : ℕ) (e : Event)
    → validate h ≡ ok tt
    → get_elem? h i ≡ some e
    → (e.id ≡ suc i) × (get_event h (suc i) ≡ some e)
unfolding get_event
get_event_valid h i e v g =
    let (p, l) = dense_get 0 h i e (validate_sound h v).1 g in
    (omega (arith, p), ground (arith, p, l))
