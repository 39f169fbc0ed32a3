-- ===== src/Matching/Queue/Cases.antt =====
-- The methods of queue case by case, as equations with the methods shut.
use skald.Prelude.{
  ℕ, ◌≡◌, refl, ◌⊎◌, inl, inr, true, false, none, some, List, [], ◌∷◌, ap, nat_eq, length,
  get_elem?, set_elem, remove_one, arith,
}
use skald.Matching.Task.{Task}
use skald.Matching.Queue.{
  Queue, handed, idle, add_uint64, enqueue, offer, offer_from, receive, take_backlog, unpark,
  set_waiter, settle_all, Waiter,
}

-- A waiter that has the task `t`.
abbrev pub given : Task → Waiter
given t = record { buffer = some t; settled = true }

-- What is left of a queue whose front waiter `w` got `t`.
abbrev pub matched : ℕ → List ℕ → Task → Queue → Queue
matched w ws t q = record q {
  waiters = ws;
  store = set_elem q.store w (given t);
  sync_matches = add_uint64 q.sync_matches 1;
}

pub offer_from-cons :
    (w : ℕ) (ws : List ℕ) (t : Task) (max : ℕ) (q : Queue)
    → get_elem? q.store w ≡ some idle
    → offer_from (w ∷ ws) t max q ≡ (handed (length q.backlog), matched w ws t q)
unfolding offer_from
offer_from-cons w ws t max q h = ground (arith, h)

pub offer-nil :
    (t : Task) (max : ℕ) (q : Queue)
    → q.waiters ≡ []
    → offer t max q ≡ enqueue t max (record q { waiters = [] })
unfolding offer offer_from
offer-nil t max q e = ap (λ ws. offer_from ws t max q) e

module _ (q : Queue) where
  pub take_backlog-nil : q.backlog ≡ [] → take_backlog q ≡ (none, q)
  unfolding take_backlog
  take_backlog-nil e = ground (arith, e)

  pub take_backlog-cons :
      (t : Task) (ts : List Task)
      → q.backlog ≡ t ∷ ts
      → take_backlog q ≡ (
        some (t, length ts),
        record q { backlog = ts; async_matches = add_uint64 q.async_matches 1 },
      )
  unfolding take_backlog
  take_backlog-cons t ts e = ground (arith, e)

-- A waiter that gives up leaves the list.
abbrev pub abandoned : ℕ → Waiter → Queue → Queue
abandoned w x q = record (set_waiter q w (record x { settled = true })) {
  waiters = remove_one w q.waiters;
}

module _ (w : ℕ) (q : Queue) where
  pub receive-none : get_elem? q.store w ≡ none → receive w q ≡ (none, q)
  unfolding receive
  receive-none e = ground (arith, e)

  pub receive-some :
      (x : Waiter)
      → get_elem? q.store w ≡ some x
      → receive w q ≡ (x.buffer, set_waiter q w (record x { buffer = none }))
  unfolding receive
  receive-some x e = ground (arith, e)

  pub unpark-none : get_elem? q.store w ≡ none → unpark w q ≡ (none, q)
  unfolding unpark
  unpark-none e = ground (arith, e)

  pub unpark-settled :
      (x : Waiter)
      → get_elem? q.store w ≡ some x
      → x.settled ≡ true
      → unpark w q ≡ (x.buffer, set_waiter q w (record x { buffer = none }))
  unfolding unpark
  unpark-settled x e h = ground (arith, e)

  pub unpark-waiting :
      (x : Waiter)
      → get_elem? q.store w ≡ some x
      → x.settled ≡ false
      → unpark w q ≡ (none, abandoned w x q)
  unfolding unpark
  unpark-waiting x e h = ground (arith, e)

module _ (w : ℕ) (ws : List ℕ) (store : List Waiter) where
  pub settle_all-none : get_elem? store w ≡ none → settle_all (w ∷ ws) store ≡ settle_all ws store
  unfolding settle_all
  settle_all-none e = ground (arith, e)

  pub settle_all-some :
      (x : Waiter)
      → get_elem? store w ≡ some x
      → settle_all (w ∷ ws) store ≡ settle_all ws (set_elem store w (record x { settled = true }))
  unfolding settle_all
  settle_all-some x e = ground (arith, e)

pub List-cases {ℓ} : {A : Type ℓ} (l : List A) → (l ≡ []) ⊎ ((x : A) × (xs : List A) × (l ≡ x ∷ xs))
List-cases [] = inl refl
List-cases (x ∷ xs) = inr (x, xs, refl)
