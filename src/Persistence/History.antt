-- ===== src/Persistence/History.antt =====
-- The history that is read back after AppendHistory.
use skald.Prelude.{
  ◌≡◌, ◌≢◌, inl, inr, refl, sym, ap, ◌∙◌, true, false, Option, none, some, List, [], ◌∷◌, ◌++◌,
  length, take, ok, arith, ◌==◌, string_eq, nat_eq, Option-cases, Outcome-cases, Bool-cases,
}
use skald.Prelude.Int.{pos}
use skald.Prelude.GoMap
use skald.History.Event.{Event, History}
use skald.Persistence.Record.{ExecutionRecord, AppendHistoryRequest}
use skald.Persistence.Store.{Run, Store, RunKey, run_key_eq}
use skald.Persistence.Create.{encode_events}
use skald.Persistence.Reads.{lookup, select_range, decode_events, read_history}
use skald.Persistence.Append.{append_history, appended, requested}
use skald.Persistence.Append.Cases.{Committed}
use skald.Persistence.Append.Stored.{get-append_history, append_history-closed}
use skald.Persistence.Append.Versions.{committed, resolved_key-named}

module _ {B : Type 0} where
  take-length : (l : List B) → take (length l) l ≡ l
  take-length [] = refl
  take-length (b ∷ l) = ap (λ r. b ∷ r) (take-length l)

  -- From event 1 to the end.
  select_range_all : (l : List B) → select_range l (pos 1) (pos 0) ≡ l
  unfolding select_range
  select_range_all [] = refl
  select_range_all (b ∷ l) = rw (take-length l) (ground arith)

  lookup-some :
      (k : RunKey) (s : Store B) (r : Run B)
      → (k.run_id == "") ≡ false
      → GoMap.get s.runs k ≡ some r
      → lookup k s ≡ ok r
  unfolding lookup
  lookup-some k s r named found = simp (named, found)

module _ {B : Type 0} (decode : B → Option Event) where
  decode_events-cons :
      (b : B) (bs : List B) (ev : Event) (evs : History)
      → decode b ≡ some ev
      → decode_events decode bs ≡ ok evs
      → decode_events decode (b ∷ bs) ≡ ok (ev ∷ evs)
  unfolding decode_events
  decode_events-cons b bs ev evs p q = ground (arith, p, q)

  decode_events-cons_inv :
      (b : B) (bs : List B) (h : History)
      → decode_events decode (b ∷ bs) ≡ ok h
      → (ev : Event) × (evs : History) × (decode b ≡ some ev)
        × (decode_events decode bs ≡ ok evs)
        × (h ≡ ev ∷ evs)
  unfolding decode_events
  decode_events-cons_inv b bs h p = elim (Option-cases (decode b)) [
    | inl e ↦ absurd (ground (arith, e))
    | inr (ev, e) ↦ elim (Outcome-cases (decode_events decode bs)) [
      | inl (evs, f) ↦ (ev, evs, e, f, ground (arith, e, f))
      | inr (inl (x, f)) ↦ absurd (ground (arith, e, f))
      | inr (inr f) ↦ absurd (ground (arith, e, f))
    ]
  ]

  decode_events-append :
      (xs ys : List B) (h g : History)
      → decode_events decode xs ≡ ok h
      → decode_events decode ys ≡ ok g
      → decode_events decode (xs ++ ys) ≡ ok (h ++ g)
  unfolding decode_events
  decode_events-append [] ys h g p q = rw (q) (ground arith)
  decode_events-append (x ∷ xs) ys h g p q =
      let (ev, t, d, rest, eq) = decode_events-cons_inv x xs h p in
      decode_events-cons x (xs ++ ys) ev (t ++ g) d (decode_events-append xs ys t g rest q)
      ∙ ap (λ l. ok (l ++ g)) (sym eq)

  read_history_named :
      (k : RunKey) (s : Store B) (run : Run B)
      → (k.run_id == "") ≡ false
      → GoMap.get s.runs k ≡ some run
      → s.closed ≡ false
      → read_history decode k (pos 1) (pos 0) s ≡ decode_events decode run.events
  unfolding read_history
  read_history_named k s run named found running =
      simp (running, lookup-some k s run named found, select_range_all)

  closed_read :
      (k : RunKey) (s : Store B) (h : History)
      → s.closed ≡ true
      → read_history decode k (pos 1) (pos 0) s ≢ ok h
  unfolding read_history
  closed_read k s h e = simp e (ground arith)

  unknown_read :
      (k : RunKey) (s : Store B) (h : History)
      → s.closed ≡ false
      → (k.run_id == "") ≡ false
      → GoMap.get s.runs k ≡ none
      → read_history decode k (pos 1) (pos 0) s ≢ ok h
  unfolding read_history lookup
  unknown_read k s h e named f = simp (e, named, f) (ground arith)

  decode_events-appended :
      (r : Run B) (blobs : List B) (req : AppendHistoryRequest) (h : History)
      → decode_events decode r.events ≡ ok h
      → decode_events decode blobs ≡ ok req.events
      → decode_events decode (appended r blobs req).events ≡ ok (h ++ req.events)
  unfolding appended
  decode_events-appended r blobs req h = decode_events-append r.events blobs h req.events

  -- What a successful ReadHistory of the whole history has found.
  read_history-run :
      (k : RunKey) (s : Store B) (h : History)
      → (k.run_id == "") ≡ false
      → read_history decode k (pos 1) (pos 0) s ≡ ok h
      → (run : Run B) × (GoMap.get s.runs k ≡ some run)
        × (decode_events decode run.events ≡ ok h)
        × (s.closed ≡ false)
  read_history-run k s h named r = elim (Bool-cases s.closed) [
    | inl e ↦ absurd (closed_read k s h e r)
    | inr e ↦ elim (Option-cases (GoMap.get s.runs k)) [
      | inl f ↦ absurd (unknown_read k s h e named f r)
      | inr (run, f) ↦ (run, f, sym (read_history_named k s run named f e) ∙ r, e)
    ]
  ]

  module _ (encode : Event → Option B)
      (law : (ev : Event) (b : B) → encode ev ≡ some b → decode b ≡ some ev) where
    decode_events-encode_events :
        (evs : History) (bs : List B)
        → encode_events encode evs ≡ ok bs
        → decode_events decode bs ≡ ok evs
    unfolding decode_events encode_events
    decode_events-encode_events [] bs h = ground (arith, h)
    decode_events-encode_events (ev ∷ evs) bs h = elim (Option-cases (encode ev)) [
      | inl e ↦ absurd (ground (arith, e))
      | inr (b, e) ↦ elim (Outcome-cases (encode_events encode evs)) [
        | inl (rest, f) ↦
            ap (decode_events decode) (split b rest e f)
            ∙ decode_events-cons b rest ev evs (law ev b e) (decode_events-encode_events evs rest f)
        | inr (inl (x, f)) ↦ absurd (ground (arith, e, f))
        | inr (inr f) ↦ absurd (ground (arith, e, f))
      ]
    ]
      where
        split :
            (b : B) (rest : List B)
            → encode ev ≡ some b
            → encode_events encode evs ≡ ok rest
            → bs ≡ b ∷ rest
        split b rest e f = ground (arith, e, f)

    -- If an encoded event decodes to itself, a request that names its run id and commits adds its
    -- events to the history that ReadHistory returns: what was read before is read again, and the
    -- new events follow it.
    pub read_history-append_history :
        (req : AppendHistoryRequest) (s : Store B) (rec : ExecutionRecord) (h : History)
        → (req.run_id == "") ≡ false
        → read_history decode (requested req) (pos 1) (pos 0) s ≡ ok h
        → (append_history encode req s).0 ≡ ok rec
        → read_history decode (requested req) (pos 1) (pos 0) (append_history encode req s).1
          ≡ ok (h ++ req.events)
    read_history-append_history req s rec h named before accepted =
        let c : Committed encode req s = committed encode req s rec accepted in
        let key : c.key ≡ requested req =
          cc (c.resolved, resolved_key-named (requested req) s named) in
        let (run, found, was, running) = read_history-run (requested req) s h named before in
        let same : c.run ≡ run = cc (key, c.found, found) in
        let stored : GoMap.get (append_history encode req s).1.runs (requested req)
            ≡ some (appended run c.blobs req) =
          cc (get-append_history encode req s c, key, same) in
        read_history_named (requested req) (append_history encode req s).1
          (appended run c.blobs req) named stored (append_history-closed encode req s c ∙ running)
        ∙ decode_events-appended run c.blobs req h was
            (decode_events-encode_events req.events c.blobs c.encoded)
