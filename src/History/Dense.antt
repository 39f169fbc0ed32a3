-- ===== src/History/Dense.antt =====
-- The ids of a history (pkg/history/history.go) with no gap.
use skald.Prelude.{ℕ, suc, ◌+◌, ◌≡◌, refl, ◌≢◌, [], ◌∷◌, ◌++◌, length, arith, nat_eq}
use skald.History.Event.{Event, History, next_event_id}

-- The ids from `n + 1` on, with no gap.
abbrev pub IsDense : ℕ → History → Type 0
IsDense n [] = Unit
IsDense n (e ∷ es) = (e.id ≡ suc n) × IsDense (suc n) es

pub last_of_IsDense :
    (n : ℕ) (h : History) → IsDense n h → h ≢ [] → next_event_id h ≡ suc (n + length h)
unfolding next_event_id
last_of_IsDense n [] d ne = absurd (ne refl)
last_of_IsDense n (e ∷ []) d ne = omega (arith, d.0)
last_of_IsDense n (e ∷ f ∷ es) d ne = omega (arith, last_of_IsDense (suc n) (f ∷ es) d.1 (λ p. cc))

pub next_of_IsDense : (h : History) → IsDense 0 h → next_event_id h ≡ suc (length h)
unfolding next_event_id
next_of_IsDense [] d = refl
next_of_IsDense (e ∷ es) d = omega (arith, last_of_IsDense 0 (e ∷ es) d (λ p. cc))

pub IsDense-push :
    (n : ℕ) (h : History) (ev : Event)
    → IsDense n h
    → ev.id ≡ suc (n + length h)
    → IsDense n (h ++ ev ∷ [])
IsDense-push n [] ev d p = (omega (arith, p), tt)
IsDense-push n (e ∷ es) ev d p = (d.0, IsDense-push (suc n) es ev d.1 (omega (arith, p)))
