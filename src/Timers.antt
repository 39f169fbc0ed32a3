-- ===== src/Timers.antt =====
-- internal/timers/timers.go: the service that hands due timers to the engine. `W` is the world that
-- its store and its callback act on, and `Around` what it is given of them.
use skald.Prelude.{
  ℕ, suc, ◌+◌, ◌%◌, ◌^◌, Bool, true, false, Option, none, some, List, [], ◌∷◌, if◌then◌else◌, leb,
  ltb, ◌||◌,
}
use skald.Prelude.Int.{ℤ, pos, leb_ℤ}
use skald.Values.Float.{Floats, Float64}
use skald.History.Event.{Time, Duration}
use skald.Persistence.Record.{TimerRecord, TimerKey}
pub mod Delivery
pub mod Progress

-- The store's DueTimers and DeleteTimers, the callback Dispatch, the clock and the context. `false`
-- and `none` are errors; each call leaves the world it found, changed.
pub record Around (W : Type 0) : Type 0 where
  pub due_timers : Time → ℤ → W → Option (List TimerRecord) × W
  pub delete_timer : TimerKey → W → Bool × W
  pub dispatch : TimerRecord → W → Bool × W
  pub now : W → Time
  pub cancelled : W → Bool

-- The counters of Service; Stats is a snapshot of them.
pub record Counters : Type 0 where
  pub scans : ℕ
  pub dispatched : ℕ
  pub deleted : ℕ
  pub dispatch_errors : ℕ
  pub store_errors : ℕ

pub record Service : Type 0 where
  pub interval : Duration
  pub jitter : Float64
  pub batch : ℤ
  pub max_wait : Duration
  pub counters : Counters

-- Config, without the store, the callback, the clock, the source of random numbers and the logger.
pub record Config : Type 0 where
  pub interval : Duration
  pub jitter_fraction : Float64
  pub batch_size : ℤ
  pub max_backoff : Duration

abbrev default_interval : Duration
default_interval = pos 1000000000

abbrev default_batch_size : ℤ
default_batch_size = pos 100

abbrev default_max_backoff : Duration
default_max_backoff = pos 30000000000

abbrev positive_or : ℤ → ℤ → ℤ
positive_or n default = if leb_ℤ n (pos 0) then default else n

abbrev no_counts : Counters
no_counts = record { scans = 0; dispatched = 0; deleted = 0; dispatch_errors = 0; store_errors = 0 }

-- x.Add(1) on an atomic.Uint64
abbrev pub bump : ℕ → ℕ
bump n = (n + 1) % 2 ^ 64

module _ (F : Floats) where
  abbrev jitter_of : Float64 → Float64
  jitter_of j =
      if F.lt j (F.of_int (pos 0))
      then F.of_int (pos 0)
      else if F.eq j (F.of_int (pos 0))
      then F.one_fifth
      else j

  -- New, with a store and a callback.
  unfoldable pub new_service : Config → Service
  new_service cfg = record {
    interval = positive_or cfg.interval default_interval;
    jitter = jitter_of cfg.jitter_fraction;
    batch = positive_or cfg.batch_size default_batch_size;
    max_wait = positive_or cfg.max_backoff default_max_backoff;
    counters = no_counts;
  }

  abbrev jittered : Service → Float64 → Float64 → Duration
  jittered s random d = F.to_int (F.mul d (F.add (F.of_int (pos 1)) (F.mul s.jitter random)))

  abbrev capped : Service → Float64 → Float64
  capped s d = if F.lt (F.of_int s.max_wait) d || F.is_inf d then F.of_int s.max_wait else d

  -- wait, for the random number that it draws.
  unfoldable pub wait : Service → ℕ → Float64 → Duration
  wait s failures random =
      if ltb 0 failures
      then jittered s random (
          capped s
            (F.mul (F.of_int s.interval) (F.pow (F.of_int (pos 2)) (F.of_int (pos failures)))))
      else jittered s random (F.of_int s.interval)

module _ {W : Type 0} (A : Around W) where
  abbrev pub after_delete : Bool → Counters → Counters
  after_delete true c = record c { deleted = bump c.deleted }
  after_delete false c = record c { store_errors = bump c.store_errors }

  -- What follows a dispatch: the entry is deleted if the callback returned no error.
  abbrev pub settle : Bool → TimerRecord → Counters → W → Counters × W
  settle false rec c w = (record c { dispatch_errors = bump c.dispatch_errors }, w)
  settle true rec c w = (after_delete (A.delete_timer rec.key w).0 c, (A.delete_timer rec.key w).1)

  -- One round of the loop of `scan`.
  unfoldable pub deliver : TimerRecord → Counters → W → Counters × W
  deliver rec c w =
      settle (A.dispatch rec w).0 rec (record c { dispatched = bump c.dispatched })
        (A.dispatch rec w).1

  -- The loop of `scan`, and whether it ran to its end.
  unfoldable pub deliver_each : List TimerRecord → Counters → W → Bool × Counters × W
  unfolding deliver
  deliver_each [] c w = (true, c, w)
  deliver_each (rec ∷ recs) c w =
      let rest = deliver_each recs (deliver rec c w).0 (deliver rec c w).1 in
      if A.cancelled w then (false, c, w) else rest

  abbrev pub scan_due : Option (List TimerRecord) → Counters → W → Bool × Counters × W
  scan_due none c w = (false, record c { store_errors = bump c.store_errors }, w)
  scan_due (some due) c w = deliver_each due (record c { scans = bump c.scans }) w

  -- scan; the first component is false for an error.
  unfoldable pub scan : Service → W → Bool × Counters × W
  scan s w =
      scan_due (A.due_timers (A.now w) s.batch w).0 s.counters (A.due_timers (A.now w) s.batch w).1
