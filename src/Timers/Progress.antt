-- ===== src/Timers/Progress.antt =====
-- A scan whose calls succeed.
use skald.Prelude.{
  ◌≡◌, inl, inr, sym, subst, Bool, true, false, some, List, [], ◌∷◌, ◌==◌, ◌||◌, Bool-cases, arith,
}
use skald.Persistence.Record.{TimerRecord, TimerKey, timer_key_eq}
use skald.Timers.{Around, Counters, Service, deliver, deliver_each, scan}

abbrev pub is_due : TimerKey → List TimerRecord → Bool
is_due k [] = false
is_due k (rec ∷ recs) = rec.key == k || is_due k recs

module _ {W : Type 0} (A : Around W) where
  module _ (Called Gone : W → Type 0) (k : TimerKey) (runs : (w : W) → A.cancelled w ≡ false)
      (absorbs : (rec : TimerRecord) (w : W) → (A.dispatch rec w).0 ≡ true)
      (calls : (rec : TimerRecord) (w : W) → (rec.key == k) ≡ true → Called (A.dispatch rec w).1)
      (dispatch_keeps : (rec : TimerRecord) (w : W)
        → Called w × Gone w
        → Called (A.dispatch rec w).1 × Gone (A.dispatch rec w).1)
      (delete_keeps : (j : TimerKey) (w : W)
        → Called w × Gone w
        → Called (A.delete_timer j w).1 × Gone (A.delete_timer j w).1)
      (deletes : (w : W)
        → Called w
        → Called (A.delete_timer k w).1 × Gone (A.delete_timer k w).1) where
    abbrev Done : W → Type 0
    Done w = Called w × Gone w

    deliver_keeps : (rec : TimerRecord) (c : Counters) (w : W) → Done w → Done (deliver A rec c w).1
    unfolding deliver
    deliver_keeps rec c w q =
        rw (absorbs rec w) (delete_keeps rec.key (A.dispatch rec w).1 (dispatch_keeps rec w q))

    deliver_reaches :
        (rec : TimerRecord) (c : Counters) (w : W)
        → (rec.key == k) ≡ true
        → Done (deliver A rec c w).1
    unfolding deliver
    deliver_reaches rec c w e = rw (absorbs rec w) (
        subst (λ j. Done (A.delete_timer j (A.dispatch rec w).1).1)
          (sym ((timer_key_eq.beq_iff rec.key k).0 e))
          (deletes (A.dispatch rec w).1 (calls rec w e)))

    deliver_each_keeps :
        (recs : List TimerRecord) (c : Counters) (w : W) → Done w → Done (deliver_each A recs c w).2
    unfolding deliver_each
    deliver_each_keeps [] c w q = q
    deliver_each_keeps (rec ∷ recs) c w q = rw (runs w) (
        deliver_each_keeps recs (deliver A rec c w).0 (deliver A rec c w).1
          (deliver_keeps rec c w q))

    deliver_each_reaches :
        (recs : List TimerRecord) (c : Counters) (w : W)
        → is_due k recs ≡ true
        → Done (deliver_each A recs c w).2
    unfolding deliver_each
    deliver_each_reaches [] c w h = cc
    deliver_each_reaches (rec ∷ recs) c w h = elim (Bool-cases (rec.key == k)) [
      | inl e ↦ rw (runs w) (
          deliver_each_keeps recs (deliver A rec c w).0 (deliver A rec c w).1
            (deliver_reaches rec c w e))
      | inr e ↦ rw (runs w) (
          deliver_each_reaches recs (deliver A rec c w).0 (deliver A rec c w).1 (ground (arith, e)))
    ]

  -- A scan hands each timer that it read as due to the callback and then deletes it, if the service
  -- is not stopped and no callback returns an error. Called is what the callback brings about for
  -- the timer, and Gone what the timer's deletion does where Called holds already; if no later
  -- callback or deletion undoes them, both hold after the scan.
  pub scan_reaches :
      (Called Gone : W → Type 0) (k : TimerKey) (s : Service) (w : W) (due : List TimerRecord)
      → ((v : W) → A.cancelled v ≡ false)
      → ((rec : TimerRecord) (v : W) → (A.dispatch rec v).0 ≡ true)
      → ((rec : TimerRecord) (v : W) → (rec.key == k) ≡ true → Called (A.dispatch rec v).1)
      → ((rec : TimerRecord) (v : W)
          → Called v × Gone v
          → Called (A.dispatch rec v).1 × Gone (A.dispatch rec v).1)
      → ((j : TimerKey) (v : W)
          → Called v × Gone v
          → Called (A.delete_timer j v).1 × Gone (A.delete_timer j v).1)
      → ((v : W) → Called v → Called (A.delete_timer k v).1 × Gone (A.delete_timer k v).1)
      → (A.due_timers (A.now w) s.batch w).0 ≡ some due
      → is_due k due ≡ true
      → Called (scan A s w).2 × Gone (scan A s w).2
  unfolding scan
  scan_reaches Called Gone k s w due runs absorbs calls dispatch_keeps delete_keeps deletes h m =
      rw h (
        deliver_each_reaches Called Gone k runs absorbs calls dispatch_keeps delete_keeps deletes
          due _ (A.due_timers (A.now w) s.batch w).1 m)
