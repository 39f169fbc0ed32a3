-- ===== src/Matching/Queue/Invariant.antt =====
-- What the list of waiters of a queue says about the heap of waiters.
use skald.Prelude.{
  ℕ, ◌≡◌, subst, sym, inl, inr, refl, true, false, none, some, List, [], ◌∷◌, ap, ◌∙◌, nat_eq,
  length, get_elem?, set_elem, among, IsDistinct, Bool-cases, Option-cases, arith,
  get_elem?-set_elem, get_elem?-append_one, among-append_one, IsDistinct-append_one,
  among-remove_one, IsDistinct-remove_one,
}
use skald.Matching.Task.{Task}
use skald.Matching.Queue.{
  Queue, Waiter, handed, idle, enqueue, offer, offer_from, take_backlog, park, receive, unpark,
  set_waiter, drain, settle_all,
}
use skald.Matching.Queue.Cases.{
  List-cases, given, matched, abandoned, offer-nil, offer_from-cons, receive-none, receive-some,
  unpark-none, unpark-settled, unpark-waiting, settle_all-none, settle_all-some,
}

abbrev pub Waiting : List ℕ → List Waiter → Type 0
Waiting ws store = (w : ℕ) → among w ws ≡ true → get_elem? store w ≡ some idle

abbrev pub Settled : List ℕ → List Waiter → Type 0
Settled ws store =
    (w : ℕ) (x : Waiter) → get_elem? store w ≡ some x → among w ws ≡ false → x.settled ≡ true

pub record IsQueue (q : Queue) : Type 0 where
  pub waiting : Waiting q.waiters q.store
  pub settled : Settled q.waiters q.store
  pub distinct : IsDistinct q.waiters

pub front-idle :
    (q : Queue) (w : ℕ) (ws : List ℕ)
    → IsQueue q
    → q.waiters ≡ w ∷ ws
    → get_elem? q.store w ≡ some idle
front-idle q w ws inv e = inv.waiting w (simp e (ground arith))

pub offer-cons :
    (t : Task) (max : ℕ) (q : Queue) (w : ℕ) (ws : List ℕ)
    → IsQueue q
    → q.waiters ≡ w ∷ ws
    → offer t max q ≡ (handed (length q.backlog), matched w ws t q)
unfolding offer
offer-cons t max q w ws inv e =
    ap (λ ws'. offer_from ws' t max q) e ∙ offer_from-cons w ws t max q (front-idle q w ws inv e)

matched-Waiting :
    (w : ℕ) (ws : List ℕ) (t : Task) (store : List Waiter)
    → Waiting (w ∷ ws) store
    → IsDistinct (w ∷ ws)
    → Waiting ws (set_elem store w (given t))
matched-Waiting w ws t store h d v m =
    ground (arith, h v, h w, d.0, get_elem?-set_elem store w v {old = idle} (given t))

matched-Settled :
    (w : ℕ) (ws : List ℕ) (t : Task) (store : List Waiter)
    → Waiting (w ∷ ws) store
    → Settled (w ∷ ws) store
    → Settled ws (set_elem store w (given t))
matched-Settled w ws t store h s v x e m =
    ground (arith, h w, s v x, get_elem?-set_elem store w v {old = idle} (given t))

pub matched-IsQueue :
    (w : ℕ) (ws : List ℕ) (t : Task) (q : Queue)
    → IsQueue q
    → q.waiters ≡ w ∷ ws
    → IsQueue (matched w ws t q)
matched-IsQueue w ws t q inv e =
    let waiting : Waiting (w ∷ ws) q.store = subst (λ l. Waiting l q.store) e inv.waiting in
    let settled : Settled (w ∷ ws) q.store = subst (λ l. Settled l q.store) e inv.settled in
    let distinct : IsDistinct (w ∷ ws) = subst IsDistinct e inv.distinct in
    record {
      waiting = matched-Waiting w ws t q.store waiting distinct;
      settled = matched-Settled w ws t q.store waiting settled;
      distinct = distinct.1;
    }

-- The backlog and the counters do not matter.
pub IsQueue-same : {q r : Queue} → r.waiters ≡ q.waiters → r.store ≡ q.store → IsQueue q → IsQueue r
IsQueue-same {q} {r} e f inv = record {
  waiting = subst (λ p. Waiting p.0 p.1) same inv.waiting;
  settled = subst (λ p. Settled p.0 p.1) same inv.settled;
  distinct = subst IsDistinct (sym e) inv.distinct;
}
  where
    same : ◌≡◌ {A = List ℕ × List Waiter} (q.waiters, q.store) (r.waiters, r.store)
    same = cc

enqueue-IsQueue : (t : Task) (max : ℕ) (q : Queue) → IsQueue q → IsQueue (enqueue t max q).1
enqueue-IsQueue t max q = IsQueue-same (ground arith) (ground arith)

pub offer-IsQueue : (t : Task) (max : ℕ) (q : Queue) → IsQueue q → IsQueue (offer t max q).1
offer-IsQueue t max q inv = elim (List-cases q.waiters) [
  | inl e ↦
      rw (offer-nil t max q e)
        (enqueue-IsQueue t max (record q { waiters = [] }) (IsQueue-same (sym e) refl inv))
  | inr (w, ws, e) ↦ rw (offer-cons t max q w ws inv e) (matched-IsQueue w ws t q inv e)
]

pub take_backlog-IsQueue : (q : Queue) → IsQueue q → IsQueue (take_backlog q).1
unfolding take_backlog
take_backlog-IsQueue q = IsQueue-same (ground arith) (ground arith)

-- The heap ends before its length.
pub get_elem?-length : (l : List Waiter) → get_elem? l (length l) ≡ none
get_elem?-length [] = refl
get_elem?-length (x ∷ l) = get_elem?-length l

fresh : (q : Queue) → IsQueue q → among (length q.store) q.waiters ≡ false
fresh q inv = ground (arith, inv.waiting (length q.store), get_elem?-length q.store)

pub park-IsQueue : (q : Queue) → IsQueue q → IsQueue (park q).1
unfolding park
park-IsQueue q inv = record {
  waiting = λ v m. ground (
    arith,
    inv.waiting v,
    get_elem?-append_one q.store v idle,
    among-append_one v (length q.store) q.waiters,
  );
  settled = λ v x e m. ground (
    arith,
    inv.settled v x,
    get_elem?-append_one q.store v idle,
    among-append_one v (length q.store) q.waiters,
  );
  distinct = IsDistinct-append_one (length q.store) q.waiters inv.distinct (fresh q inv);
}

-- The buffer of a waiter, waiting or settled, is emptied.
emptied-IsQueue :
    (w : ℕ) (x : Waiter) (q : Queue)
    → get_elem? q.store w ≡ some x
    → IsQueue q
    → IsQueue (set_waiter q w (record x { buffer = none }))
emptied-IsQueue w x q e inv = record {
  waiting = λ v m. ground (
    arith,
    inv.waiting v m,
    get_elem?-set_elem q.store w v {old = x} (record x { buffer = none }),
  );
  settled = λ v y f m. ground (
    arith,
    inv.settled v y,
    inv.settled w x,
    get_elem?-set_elem q.store w v {old = x} (record x { buffer = none }),
  );
  distinct = inv.distinct;
}

abandoned-IsQueue :
    (w : ℕ) (x : Waiter) (q : Queue)
    → get_elem? q.store w ≡ some x
    → IsQueue q
    → IsQueue (abandoned w x q)
abandoned-IsQueue w x q e inv = record {
  waiting = λ v m. ground (
    arith,
    inv.waiting v,
    among-remove_one w v q.waiters inv.distinct,
    get_elem?-set_elem q.store w v {old = x} (record x { settled = true }),
  );
  settled = λ v y f m. ground (
    arith,
    inv.settled v y,
    among-remove_one w v q.waiters inv.distinct,
    get_elem?-set_elem q.store w v {old = x} (record x { settled = true }),
  );
  distinct = IsDistinct-remove_one w q.waiters inv.distinct;
}

module _ (w : ℕ) (q : Queue) where
  pub receive-IsQueue : IsQueue q → IsQueue (receive w q).1
  receive-IsQueue inv = elim (Option-cases (get_elem? q.store w)) [
    | inl e ↦ rw (receive-none w q e) inv
    | inr (x, e) ↦ rw (receive-some w q x e) (emptied-IsQueue w x q e inv)
  ]

  pub unpark-IsQueue : IsQueue q → IsQueue (unpark w q).1
  unpark-IsQueue inv = elim (Option-cases (get_elem? q.store w)) [
    | inl e ↦ rw (unpark-none w q e) inv
    | inr (x, e) ↦ elim (Bool-cases x.settled) [
      | inl h ↦ rw (unpark-settled w q x e h) (emptied-IsQueue w x q e inv)
      | inr h ↦ rw (unpark-waiting w q x e h) (abandoned-IsQueue w x q e inv)
    ]
  ]

-- `drain` settles the waiters of the list, and no other waiter changes.
settle_all-Settled :
    (ws : List ℕ) (store : List Waiter) → Settled ws store → Settled [] (settle_all ws store)
unfolding settle_all
settle_all-Settled [] store h = h
settle_all-Settled (w ∷ ws) store h = elim (Option-cases (get_elem? store w)) [
  | inl e ↦
      rw (settle_all-none w ws store e)
        (settle_all-Settled ws store (λ v x f m. ground (arith, h v x)))
  | inr (y, e) ↦ rw (settle_all-some w ws store y e) (
      settle_all-Settled ws (set_elem store w (record y { settled = true })) (λ v x f m.
        ground
          (arith, h v x, get_elem?-set_elem store w v {old = y} (record y { settled = true }))))
]

pub drain-IsQueue : (q : Queue) → IsQueue q → IsQueue (drain q).1
unfolding drain
drain-IsQueue q inv = record {
  waiting = λ v m. cc;
  settled = settle_all-Settled q.waiters q.store inv.settled;
  distinct = tt;
}
