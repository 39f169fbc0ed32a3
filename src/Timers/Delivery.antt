-- ===== src/Timers/Delivery.antt =====
-- What a scan does to the timers that are due.
use skald.Prelude.{
  ℕ, ◌+◌, ◌%◌, ◌^◌, ◌≡◌, ◌⊎◌, inl, inr, Bool, true, false, Option, none, some, List, [], ◌∷◌, ◌==◌,
  Bool-cases, arith,
}
use skald.Prelude.Int.{ℤ}
use skald.History.Event.{Time}
use skald.Persistence.Record.{TimerRecord, TimerKey, timer_key_eq}
use skald.Timers.{Around, Counters, Service, bump, settle, deliver, deliver_each, scan_due, scan}

module _ {W : Type 0} (A : Around W) where
  -- A timer whose dispatch fails stays: what holds of the world is kept by a scan, if the store's
  -- reads, the callback and deletes of other timers keep it, and the callback fails at the timer.
  module _ (P : W → Type 0) (k : TimerKey)
      (dispatch_keeps : (rec : TimerRecord) (w : W) → P w → P (A.dispatch rec w).1)
      (delete_keeps : (j : TimerKey) (w : W) → (j == k) ≡ false → P w → P (A.delete_timer j w).1)
      (fails : (rec : TimerRecord) (w : W)
        → (rec.key == k) ≡ true
        → (A.dispatch rec w).0 ≡ false) where
    settle_keeps :
        (b : Bool) (rec : TimerRecord) (c : Counters) (w : W)
        → (rec.key == k) ≡ false ⊎ b ≡ false
        → P w
        → P (settle A b rec c w).1
    settle_keeps true rec c w (inl other) p = delete_keeps rec.key w other p
    settle_keeps true rec c w (inr no_) p = cc
    settle_keeps false rec c w o p = p

    deliver_keeps : (rec : TimerRecord) (c : Counters) (w : W) → P w → P (deliver A rec c w).1
    unfolding deliver
    deliver_keeps rec c w p =
        settle_keeps (A.dispatch rec w).0 rec _ (A.dispatch rec w).1 by_key (dispatch_keeps rec w p)
      where
        by_key : (rec.key == k) ≡ false ⊎ (A.dispatch rec w).0 ≡ false
        by_key = elim (Bool-cases (rec.key == k)) [ inl e ↦ inr (fails rec w e) | inr e ↦ inl e ]

    deliver_each_keeps :
        (recs : List TimerRecord) (c : Counters) (w : W) → P w → P (deliver_each A recs c w).2
    unfolding deliver_each
    deliver_each_keeps [] c w p = p
    deliver_each_keeps (rec ∷ recs) c w p = elim (Bool-cases (A.cancelled w)) [
      | inl e ↦ rw e p
      | inr e ↦ rw e (
          deliver_each_keeps recs (deliver A rec c w).0 (deliver A rec c w).1
            (deliver_keeps rec c w p))
    ]

    scan_due_keeps :
        (o : Option (List TimerRecord)) (c : Counters) (w : W) → P w → P (scan_due A o c w).2
    scan_due_keeps none c w p = p
    scan_due_keeps (some due) c w p = deliver_each_keeps due _ w p

  -- A timer at which the callback returns an error stays in the index: whatever holds of the world
  -- before a scan, such as that the timer is in the index, holds after it, if DueTimers, the callback
  -- and the deletion of other timers do not change it.
  pub scan_keeps :
      (P : W → Type 0) (k : TimerKey)
      → ((t : Time) (n : ℤ) (w : W) → P w → P (A.due_timers t n w).1)
      → ((rec : TimerRecord) (w : W) → P w → P (A.dispatch rec w).1)
      → ((j : TimerKey) (w : W) → (j == k) ≡ false → P w → P (A.delete_timer j w).1)
      → ((rec : TimerRecord) (w : W) → (rec.key == k) ≡ true → (A.dispatch rec w).0 ≡ false)
      → (s : Service) (w : W) → P w
      → P (scan A s w).2
  unfolding scan
  scan_keeps P k due_keeps dispatch_keeps delete_keeps fails s w p =
      scan_due_keeps P k dispatch_keeps delete_keeps fails (A.due_timers (A.now w) s.batch w).0
        s.counters (A.due_timers (A.now w) s.batch w).1 (due_keeps (A.now w) s.batch w p)

  -- Each dispatch is counted once more: as a deletion, a failed dispatch or a failed deletion.
  abbrev outcomes : Counters → ℕ
  outcomes c = c.deleted + c.dispatch_errors + c.store_errors

  Accounted : Counters → Counters → Type 0
  Accounted c d = (d.dispatched + outcomes c) % 2 ^ 64 ≡ (c.dispatched + outcomes d) % 2 ^ 64

  settle-Accounted :
      (b : Bool) (rec : TimerRecord) (c : Counters) (w : W)
      → Accounted c (settle A b rec (record c { dispatched = bump c.dispatched }) w).0
  unfolding Accounted
  settle-Accounted true rec c w = elim (Bool-cases (A.delete_timer rec.key w).0) [
    | inl e ↦ rw e (omega arith)
    | inr e ↦ rw e (omega arith)
  ]
  settle-Accounted false rec c w = omega arith

  deliver_each-Accounted :
      (recs : List TimerRecord) (c : Counters) (w : W) → Accounted c (deliver_each A recs c w).1
  unfolding deliver_each deliver Accounted
  deliver_each-Accounted [] c w = omega arith
  deliver_each-Accounted (rec ∷ recs) c w = elim (Bool-cases (A.cancelled w)) [
    | inl e ↦ rw e (omega arith)
    | inr e ↦ rw e (
        omega (
          arith,
          settle-Accounted (A.dispatch rec w).0 rec c (A.dispatch rec w).1,
          deliver_each-Accounted recs (deliver A rec c w).0 (deliver A rec c w).1,
        ))
  ]

  -- After a scan that could read the due timers, the dispatches it counted are its deletions, failed
  -- dispatches and failed deletions, as the counters of 64 bits have them.
  pub scan-counters :
      (s : Service) (w : W) (due : List TimerRecord)
      → (A.due_timers (A.now w) s.batch w).0 ≡ some due
      → ((scan A s w).1.dispatched
            + (s.counters.deleted + s.counters.dispatch_errors + s.counters.store_errors))
          % 2 ^ 64
        ≡ (s.counters.dispatched
            + ((scan A s w).1.deleted
                + (scan A s w).1.dispatch_errors
                + (scan A s w).1.store_errors))
          % 2 ^ 64
  unfolding scan Accounted
  scan-counters s w due h = rw h (
      omega (
        arith,
        deliver_each-Accounted due (record s.counters { scans = bump s.counters.scans })
            (A.due_timers (A.now w) s.batch w).1,
      ))
