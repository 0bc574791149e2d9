-- ===== src/Consumers/Recovery/Acknowledge.antt =====
-- Acknowledgements of reporting-api/app/consumers/redis_recovery.py: an entry leaves the pending
-- list of the stream only when its event needs no further delivery.
use mathlib.Core.Bool.{false≢true}
use ntu_cloud_native.Prelude.{
  string_eq, if◌then◌else◌, String, Bool, true, false, not, ◌&&◌, ◌⊎◌, inl, inr, List, [], ◌∷◌, ◌≡◌,
  refl, arith, All, All-imp, contains, Bool-cases,
}
use Prim.Native.String.{◌++◌ as ◌<>◌}
use ntu_cloud_native.Prelude.Text.{is_empty}
use ntu_cloud_native.Result.{Result, ok, err}
use ntu_cloud_native.Ingest.Parse.{Payload, Runtime}
use ntu_cloud_native.Consumers.Base.{
  IsBacked-of_contains, IsBacked-Grows, IsBacked, AreBacked, AreBacked-Grows, Grows, EventStore,
  IsCounted, Reachable, save_now,
}
use ntu_cloud_native.Consumers.Kafka.Delivery.{save_now-eq_ok, count_saved-IsCounted}
use ntu_cloud_native.Consumers.Recovery.{
  RecoverySettings, Entry, Recovering, payload_from_stream_fields, request_id_of, already_persisted,
  record_recovery, recover_payload, process_entry, process_entries,
}

last_of_and : (a b c : Bool) → (a && (b && c)) ≡ true → c ≡ true
last_of_and a b c h = ground arith

module _ (S : EventStore) (rt : Runtime) (cfg : RecoverySettings) where
  abbrev pub entry_key : Entry → String
  entry_key e = cfg.redis_persisted_marker_prefix <> request_id_of rt e.fields

  abbrev SettledFields : Result Payload → S.State → Type 0
  SettledFields (ok p) s = S.IsSettled p s
  SettledFields (err x) s = Unit

  -- An entry needs no further delivery: it is poison or its event is settled; or the event of some
  -- delivery under the same request id is.
  abbrev pub IsCovered : S.State → Entry → Type 0
  IsCovered s e =
      SettledFields (payload_from_stream_fields e.fields) s
      ⊎ IsBacked S rt cfg.redis_persisted_marker_prefix s (entry_key e)

  SettledFields-Grows :
      (o : Result Payload) (s s' : S.State)
      → Grows S rt cfg.redis_persisted_marker_prefix s s'
      → SettledFields o s
      → SettledFields o s'
  SettledFields-Grows (ok p) s s' g h = g p h
  SettledFields-Grows (err x) s s' g h = tt

  pub IsCovered-Grows :
      (s s' : S.State) (e : Entry)
      → Grows S rt cfg.redis_persisted_marker_prefix s s'
      → IsCovered s e
      → IsCovered s' e
  IsCovered-Grows s s' e g (inl h) =
      inl (SettledFields-Grows (payload_from_stream_fields e.fields) s s' g h)
  IsCovered-Grows s s' e g (inr h) =
      inr (IsBacked-Grows S rt cfg.redis_persisted_marker_prefix s s' (entry_key e) g h)

  pub record Processes (r : Recovering S) (acked : List Entry) (r' : Recovering S) : Type 0 where
    pub counted : IsCounted r.status → IsCounted r'.status
    pub grows : Grows S rt cfg.redis_persisted_marker_prefix r.store r'.store
    pub covered : All (IsCovered r'.store) acked

  record_recovery_lem :
      (up : Reachable) (r : Recovering S) (p : Payload) (o : Result (Bool × S.State))
      → save_now S up p r.store ≡ o
      → (IsCounted r.status → IsCounted (record_recovery S rt cfg r o).1.status)
        × Grows S rt cfg.redis_persisted_marker_prefix r.store
            (record_recovery S rt cfg r o).1.store
        × ((record_recovery S rt cfg r o).0 ≡ true
            → S.IsSettled p (record_recovery S rt cfg r o).1.store)
  unfolding record_recovery
  record_recovery_lem up r p (ok (b, s')) e =
      let saved : S.save p r.store ≡ ok (b, s') = save_now-eq_ok S up p r.store (b, s') e in
      (
        λ c. count_saved-IsCounted b r.status c,
        λ q x. S.stays p q r.store s' b saved x,
        λ _. S.settles p r.store s' b saved,
      )
  record_recovery_lem up r p (err x) e = (λ c. c, λ q h. h, λ f. absurd (false≢true f))

  recover_payload_lem :
      (up : Reachable) (r : Recovering S) (o : Result Payload)
      → (IsCounted r.status → IsCounted (recover_payload S rt cfg up r o).1.status)
        × Grows S rt cfg.redis_persisted_marker_prefix r.store
            (recover_payload S rt cfg up r o).1.store
        × ((recover_payload S rt cfg up r o).0 ≡ true
            → SettledFields o (recover_payload S rt cfg up r o).1.store)
  unfolding recover_payload
  recover_payload_lem up r (ok p) = record_recovery_lem up r p (save_now S up p r.store) refl
  recover_payload_lem up r (err x) = (λ c. c, λ q h. h, λ _. tt)

  pub process_entry_lem :
      (up : Reachable) (markers : List String) (e : Entry) (r : Recovering S)
      → AreBacked S rt cfg.redis_persisted_marker_prefix markers r.store
      → (IsCounted r.status → IsCounted (process_entry S rt cfg up markers e r).1.status)
        × Grows S rt cfg.redis_persisted_marker_prefix r.store
            (process_entry S rt cfg up markers e r).1.store
        × ((process_entry S rt cfg up markers e r).0 ≡ true
            → IsCovered (process_entry S rt cfg up markers e r).1.store e)
  unfolding process_entry
  process_entry_lem up markers e r backed =
      elim (Bool-cases (
        not (is_empty (request_id_of rt e.fields))
        && already_persisted S rt cfg up markers (request_id_of rt e.fields))) [
          | inl marked ↦ rw marked (
            λ c. c,
            λ q h. h,
            λ _. inr (
                IsBacked-of_contains S rt cfg.redis_persisted_marker_prefix markers r.store
                  (entry_key e) backed
                  (last_of_and (not (is_empty (request_id_of rt e.fields))) up.redis
                    (contains markers (entry_key e)) marked)),
          )
          | inr fresh ↦
              let (c, g, d) = recover_payload_lem up r (payload_from_stream_fields e.fields) in
              rw fresh (c, g, λ t. inl (d t))
        ]

  AllCovered-Grows :
      (s s' : S.State) (es : List Entry)
      → Grows S rt cfg.redis_persisted_marker_prefix s s'
      → All (IsCovered s) es
      → All (IsCovered s') es
  AllCovered-Grows s s' es g h = All-imp _ _ es (λ e. IsCovered-Grows s s' e g) h

  abbrev BackedBatch : List (Entry × Reachable × List String) → S.State → Type 0
  BackedBatch es s =
      All
        (λ (x : Entry × Reachable × List String).
          AreBacked S rt cfg.redis_persisted_marker_prefix x.2 s)
        es

  process_cons :
      (e : Entry) (r : Recovering S) (one : Bool × Recovering S) (more : List Entry × Recovering S)
      → (IsCounted r.status → IsCounted one.1.status)
        × Grows S rt cfg.redis_persisted_marker_prefix r.store one.1.store
        × (one.0 ≡ true → IsCovered one.1.store e)
      → Processes one.1 more.0 more.1
      → let both : List Entry × Recovering S =
          (if one.0 then (e ∷ more.0, more.1) else (more.0, more.1)) in
        Processes r both.0 both.1
  process_cons e r (true, next) more (c, g, d) p = record {
    counted = λ x. p.counted (c x);
    grows = λ q x. p.grows q (g q x);
    covered = (IsCovered-Grows next.store more.1.store e p.grows (d refl), p.covered);
  }
  process_cons e r (false, next) more (c, g, d) p = record {
    counted = λ x. p.counted (c x);
    grows = λ q x. p.grows q (g q x);
    covered = p.covered;
  }

  -- Every entry that a batch acknowledges, in whatever state the database and Redis are, is covered
  -- by a settled event or is poison, provided that the markers were set for settled events; the
  -- counters still add up, and what was settled stays settled.
  pub process_entries-Processes :
      (es : List (Entry × Reachable × List String)) (r : Recovering S)
      → BackedBatch es r.store
      → Processes r (process_entries S rt cfg es r).0 (process_entries S rt cfg es r).1
  unfolding process_entries
  process_entries-Processes [] r h = record { counted = λ c. c; grows = λ q x. x; covered = tt }
  process_entries-Processes ((e, up, markers) ∷ rest) r h =
      let one = process_entry S rt cfg up markers e r in
      let (c, g, d) = process_entry_lem up markers e r h.0 in
      process_cons e r one (process_entries S rt cfg rest one.1) (c, g, d)
        (process_entries-Processes rest one.1 (
          All-imp _ _ rest
            (λ x. AreBacked-Grows S rt cfg.redis_persisted_marker_prefix r.store one.1.store x.2 g)
            h.1))

  module _ (P : S.State → Type 0)
      (keeps : (p : Payload) (s s' : S.State) (b : Bool)
        → S.save p s ≡ ok (b, s')
        → P s
        → P s') where
    record_recovery-keeps :
        (up : Reachable) (r : Recovering S) (p : Payload) (o : Result (Bool × S.State))
        → save_now S up p r.store ≡ o
        → P r.store
        → P (record_recovery S rt cfg r o).1.store
    unfolding record_recovery
    record_recovery-keeps up r p (ok (b, s')) e k =
        keeps p r.store s' b (save_now-eq_ok S up p r.store (b, s') e) k
    record_recovery-keeps up r p (err x) e k = k

    recover_payload-keeps :
        (up : Reachable) (r : Recovering S) (o : Result Payload)
        → P r.store
        → P (recover_payload S rt cfg up r o).1.store
    unfolding recover_payload
    recover_payload-keeps up r (ok p) k =
        record_recovery-keeps up r p (save_now S up p r.store) refl k
    recover_payload-keeps up r (err x) k = k

    -- What every save keeps of the store, the processing of an entry keeps.
    pub process_entry-keeps :
        (up : Reachable) (markers : List String) (e : Entry) (r : Recovering S)
        → P r.store
        → P (process_entry S rt cfg up markers e r).1.store
    unfolding process_entry
    process_entry-keeps up markers e r k =
        elim (Bool-cases (
          not (is_empty (request_id_of rt e.fields))
          && already_persisted S rt cfg up markers (request_id_of rt e.fields))) [
            | inl marked ↦ rw marked k
            | inr fresh ↦
                rw fresh (recover_payload-keeps up r (payload_from_stream_fields e.fields) k)
          ]

-- What one store has settled, seen by another.
SettledFields-imp :
    (S T : EventStore) (rt : Runtime) (cfg : RecoverySettings) (o : Result Payload) (s : S.State)
    (t : T.State)
    → ((q : Payload) → S.IsSettled q s → T.IsSettled q t)
    → SettledFields S rt cfg o s
    → SettledFields T rt cfg o t
SettledFields-imp S T rt cfg (ok p) s t g x = g p x
SettledFields-imp S T rt cfg (err e) s t g x = tt

pub IsCovered-imp :
    (S T : EventStore) (rt : Runtime) (cfg : RecoverySettings) (s : S.State) (t : T.State)
    (e : Entry)
    → ((q : Payload) → S.IsSettled q s → T.IsSettled q t)
    → IsCovered S rt cfg s e
    → IsCovered T rt cfg t e
IsCovered-imp S T rt cfg s t e g (inl h) =
    inl (SettledFields-imp S T rt cfg (payload_from_stream_fields e.fields) s t g h)
IsCovered-imp S T rt cfg s t e g (inr (p, key, h)) = inr (p, key, g p h)
