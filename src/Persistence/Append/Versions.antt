-- ===== src/Persistence/Append/Versions.antt =====
-- Versions of a run: of the writers that read one version, one commits.
use skald.Prelude.{
  ◌+◌, ◌≡◌, ◌≢◌, inl, inr, refl, sym, ap, subst, ◌∙◌, false, Option, some, List, [], ◌∷◌, ok, arith,
  ◌==◌, string_eq, nat_eq, append-nil,
}
use skald.Prelude.GoMap
use skald.History.Event.{Event, History}
use skald.Persistence.Record.{ExecutionRecord, AppendHistoryRequest, is_open}
use skald.Persistence.Store.{Run, Store, RunKey, run_key_eq}
use skald.Persistence.Checks.{validate_append}
use skald.Persistence.Create.{encode_events}
use skald.Persistence.Reads.{resolved_key}
use skald.Persistence.Append.{append_history, appended, check_append, requested}
use skald.Persistence.Append.Cases.{append_cases, Committed}
use skald.Persistence.Append.Stored.{get-append_history}

module _ {B : Type 0} where
  pub check_append-version :
      (r : Run B) (req : AppendHistoryRequest)
      → check_append r req ≡ ok tt
      → r.rec.version ≡ req.expected_version
  unfolding check_append
  check_append-version r req h = ground arith

  pub appended-version :
      (r : Run B) (blobs : List B) (req : AppendHistoryRequest)
      → (appended r blobs req).rec.version ≡ r.rec.version + 1
  unfolding appended
  appended-version r blobs req = refl

  pub resolved_key-named :
      (k : RunKey) (s : Store B) → (k.run_id == "") ≡ false → resolved_key k s ≡ some k
  resolved_key-named k s h = simp h

  -- A run that is closed accepts no events.
  check_append-closed :
      (r : Run B) (req : AppendHistoryRequest)
      → is_open r.rec ≡ false
      → check_append r req ≡ ok tt
      → req.events ≡ []
  unfolding check_append validate_append
  check_append-closed r req closed h = go req.events (ground arith)
    where
      go : (evs : History) → validate_append r evs ≡ ok tt → evs ≡ []
      go [] v = refl
      go (ev ∷ evs) v = ground (arith, closed)

  appended-closed :
      (r : Run B) (req : AppendHistoryRequest)
      → is_open r.rec ≡ false
      → req.events ≡ []
      → ((appended r [] req).events ≡ r.events)
        × ((appended r [] req).rec.status ≡ r.rec.status)
        × ((appended r [] req).rec.last_event_id ≡ r.rec.last_event_id)
  unfolding appended
  appended-closed r req closed none_ = (append-nil r.events, ground arith, simp none_)

module _ {B : Type 0} (encode : Event → Option B) where
  no_blobs : (evs : History) (bs : List B) → evs ≡ [] → encode_events encode evs ≡ ok bs → bs ≡ []
  unfolding encode_events
  no_blobs [] bs e h = ground arith
  no_blobs (ev ∷ evs) bs e h = cc

  pub committed :
      (req : AppendHistoryRequest) (s : Store B) (rec : ExecutionRecord)
      → (append_history encode req s).0 ≡ ok rec
      → Committed encode req s
  committed req s rec h = elim (append_cases encode req s) [
    | inl refused ↦ absurd (refused.1 rec h)
    | inr c ↦ c
  ]

  -- Of two requests for the same run, named by its run id, that expect the same version, the second
  -- is refused once the first has committed, and it changes nothing.
  pub append_history_once :
      (req later : AppendHistoryRequest) (s : Store B) (rec : ExecutionRecord)
      → (req.run_id == "") ≡ false
      → requested later ≡ requested req
      → later.expected_version ≡ req.expected_version
      → (append_history encode req s).0 ≡ ok rec
      → ((append_history encode later (append_history encode req s).1).1
          ≡ (append_history encode req s).1)
        × ((again : ExecutionRecord)
            → (append_history encode later (append_history encode req s).1).0 ≢ ok again)
  append_history_once req later s rec named same expects h =
      elim (append_cases encode later (append_history encode req s).1) [
        | inl refused ↦ refused
        | inr d ↦ absurd (conflict (committed req s rec h) d)
      ]
    where
      conflict : Committed encode req s → Committed encode later (append_history encode req s).1 → ⊥
      conflict c d = omega (
        arith,
        check_append-version c.run req c.checked,
        check_append-version d.run later d.checked,
        ap (λ (r : Run B). r.rec.version) (runs c d),
        appended-version c.run c.blobs req,
        expects,
      )
        where
          keys :
              (c : Committed encode req s)
              (d : Committed encode later (append_history encode req s).1)
              → d.key ≡ c.key
          keys c d = cc (
            c.resolved,
            d.resolved,
            same,
            resolved_key-named (requested req) s named,
            resolved_key-named (requested req) (append_history encode req s).1 named,
          )

          runs :
              (c : Committed encode req s)
              (d : Committed encode later (append_history encode req s).1)
              → d.run ≡ appended c.run c.blobs req
          runs c d = cc (keys c d, d.found, get-append_history encode req s c)

  closed_kept :
      (req : AppendHistoryRequest) (s : Store B) (run : Run B)
      → (req.run_id == "") ≡ false
      → GoMap.get s.runs (requested req) ≡ some run
      → is_open run.rec ≡ false
      → Committed encode req s
      → GoMap.get (append_history encode req s).1.runs (requested req) ≡ some (appended run [] req)
        × (req.events ≡ [])
  closed_kept req s run named found closed c =
      let key : c.key ≡ requested req =
        cc (c.resolved, resolved_key-named (requested req) s named) in
      let same : c.run ≡ run = cc (key, c.found, found) in
      let none_ : req.events ≡ [] =
        check_append-closed c.run req
          (subst (λ (r : Run B). is_open r.rec ≡ false) (sym same) closed) c.checked in
      (
        cc (
          get-append_history encode req s c,
          key,
          same,
          no_blobs req.events c.blobs none_ c.encoded,
        ),
        none_,
      )

  -- Once a run is closed, a request that names its run id, whether it is accepted, refused or ends
  -- in a panic, leaves the run stored with the same events, status and last event id.
  pub append_history_closed :
      (req : AppendHistoryRequest) (s : Store B) (run : Run B)
      → (req.run_id == "") ≡ false
      → GoMap.get s.runs (requested req) ≡ some run
      → is_open run.rec ≡ false
      → (after : Run B) × (GoMap.get (append_history encode req s).1.runs (requested req)
          ≡ some after)
        × (after.events ≡ run.events)
        × (after.rec.status ≡ run.rec.status)
        × (after.rec.last_event_id ≡ run.rec.last_event_id)
  append_history_closed req s run named found closed = elim (append_cases encode req s) [
    | inl refused ↦ (
      run,
      ap (λ (t : Store B). GoMap.get t.runs (requested req)) refused.0 ∙ found,
      refl,
      refl,
      refl,
    )
    | inr c ↦
        let (stored, none_) = closed_kept req s run named found closed c in
        let kept = appended-closed run req closed none_ in
        (appended run [] req, stored, kept.0, kept.1, kept.2)
  ]
