-- ===== src/Consumers/Kafka/Delivery.antt =====
-- Kafka delivery (reporting-api/app/consumers/access_events.py): what a handled message leaves
-- behind, and what a commit of its offset rests on.
use mathlib.Core.Bool.{false≢true}
use ntu_cloud_native.Prelude.{
  if◌then◌else◌, length, inl, inr, min, ◌*◌, Bool-cases, ℕ, suc, ◌≤◌, String, Bool, true, false,
  Option, List, [], ◌∷◌, ◌≡◌, refl, arith, take,
}
use ntu_cloud_native.Result.{Result, ok, err, operational_error}
use ntu_cloud_native.Ingest.Parse.{Payload, Runtime}
use ntu_cloud_native.Consumers.Base.{
  EventStore, Status, IsCounted, Reachable, save_now, count_saved,
}
use ntu_cloud_native.Consumers.Kafka.{
  Message, KafkaSettings, Handling, Turn, Retried, record_save, handle_payload, payload_of,
  handle_message, retry_from, handle_with_retry, consume, is_handled,
}

pub count_saved-IsCounted : (b : Bool) (s : Status) → IsCounted s → IsCounted (count_saved b s)
count_saved-IsCounted true s h = omega arith
count_saved-IsCounted false s h = omega arith

module _ (S : EventStore) where
  -- The handling went on from one state to another: the counters still add up, what was settled is.
  pub record GoesOn (h h' : Handling S) : Type 0 where
    pub counted : IsCounted h.status → IsCounted h'.status
    pub stays : (q : Payload) → S.IsSettled q h.store → S.IsSettled q h'.store

  GoesOn-refl : (h : Handling S) → GoesOn h h
  GoesOn-refl h = record { counted = λ c. c; stays = λ q x. x }

  GoesOn-trans : (a b c : Handling S) → GoesOn a b → GoesOn b c → GoesOn a c
  GoesOn-trans a b c x y = record {
    counted = λ z. y.counted (x.counted z);
    stays = λ q z. y.stays q (x.stays q z);
  }

  pub save_now-eq_ok :
      (up : Reachable) (p : Payload) (s : S.State) (r : Bool × S.State)
      → save_now S up p s ≡ ok r
      → S.save p s ≡ ok r
  save_now-eq_ok up p s r h = elim (Bool-cases up.database) [
    | inl there ↦ rw there at h
    | inr gone ↦ absurd (down (rw gone at h))
  ]
    where
      down : ◌≡◌ {A = Result (Bool × S.State)} (err operational_error) (ok r) → ⊥
      down e = cc

module _ (S : EventStore) (rt : Runtime) (decode : List ℕ → Option String)
    (cfg : KafkaSettings) where
  abbrev pub SettledResult : Result Payload → S.State → Type 0
  SettledResult (ok p) s = S.IsSettled p s
  SettledResult (err e) s = Unit

  -- A message needs no further delivery: it is poison, or the store has settled its event.
  abbrev pub IsDone : Message → S.State → Type 0
  IsDone m s = SettledResult (payload_of S rt decode cfg m) s

  abbrev DoneIf : Message → Bool × Handling S → Type 0
  DoneIf m (true, h) = IsDone m h.store
  DoneIf m (false, h) = Unit

  SettledResult-stays :
      (o : Result Payload) (h h' : Handling S)
      → GoesOn S h h'
      → SettledResult o h.store
      → SettledResult o h'.store
  SettledResult-stays (ok p) h h' g x = g.stays p x
  SettledResult-stays (err e) h h' g x = tt

  pub IsDone-stays :
      (m : Message) (h h' : Handling S) → GoesOn S h h' → IsDone m h.store → IsDone m h'.store
  IsDone-stays m = SettledResult-stays (payload_of S rt decode cfg m)

  SettledResult-grows :
      (o : Result Payload) (s s' : S.State)
      → ((q : Payload) → S.IsSettled q s → S.IsSettled q s')
      → SettledResult o s
      → SettledResult o s'
  SettledResult-grows (ok p) s s' g x = g p x
  SettledResult-grows (err e) s s' g x = tt

  pub IsDone-grows :
      (m : Message) (s s' : S.State)
      → ((q : Payload) → S.IsSettled q s → S.IsSettled q s')
      → IsDone m s
      → IsDone m s'
  IsDone-grows m = SettledResult-grows (payload_of S rt decode cfg m)

  -- An attempt goes on from where it began, and has done its message if it answers True.
  pub record Attempts (m : Message) (h : Handling S) (r : Bool × Handling S) : Type 0 where
    pub goes_on : GoesOn S h r.1
    pub done : r.0 ≡ true → IsDone m r.1.store

  record_save_lem :
      (up : Reachable) (p : Payload) (h : Handling S) (o : Result (Bool × S.State))
      → save_now S up p h.store ≡ o
      → GoesOn S h (record_save S rt decode cfg up p h o).1
        × ((record_save S rt decode cfg up p h o).0 ≡ true
            → S.IsSettled p (record_save S rt decode cfg up p h o).1.store)
  unfolding record_save
  record_save_lem up p h (ok (b, s')) e =
      let saved : S.save p h.store ≡ ok (b, s') = save_now-eq_ok S up p h.store (b, s') e in
      (
        record {
          counted = λ c. count_saved-IsCounted b h.status c;
          stays = λ q x. S.stays p q h.store s' b saved x;
        },
        λ _. S.settles p h.store s' b saved,
      )
  record_save_lem up p h (err x) e =
      (record { counted = λ c. c; stays = λ q x. x }, λ f. absurd (false≢true f))

  handle_payload_lem :
      (up : Reachable) (h : Handling S) (o : Result Payload)
      → GoesOn S h (handle_payload S rt decode cfg up h o).1
        × ((handle_payload S rt decode cfg up h o).0 ≡ true
            → SettledResult o (handle_payload S rt decode cfg up h o).1.store)
  unfolding handle_payload
  handle_payload_lem up h (ok p) = record_save_lem up p h (save_now S up p h.store) refl
  handle_payload_lem up h (err e) = (record { counted = λ c. c; stays = λ q x. x }, λ _. tt)

  pub handle_message-Attempts :
      (up : Reachable) (m : Message) (h : Handling S)
      → Attempts m h (handle_message S rt decode cfg up m h)
  unfolding handle_message
  handle_message-Attempts up m h =
      let (g, d) = handle_payload_lem up h (payload_of S rt decode cfg m) in
      record { goes_on = g; done = d }

  -- The retry loop goes on from where it began, and has done its message if it ends handled.
  pub record Retries (m : Message) (h : Handling S) (r : Retried S) : Type 0 where
    pub goes_on : GoesOn S h r.after
    pub done : is_handled S rt decode cfg r.outcome ≡ true → IsDone m r.after.store

  retry_from-Retries :
      (b : ℕ) (m : Message) (ts : List Turn) (h : Handling S)
      → Retries m h (retry_from S rt decode cfg b m ts h)
  unfolding retry_from
  retry_from-Retries b m [] h = record {
    goes_on = GoesOn-refl S h;
    done = λ f. absurd (false≢true f);
  }
  retry_from-Retries b m (t ∷ ts) h =
      let tried = handle_message S rt decode cfg t.up m h in
      let a = handle_message-Attempts t.up m h in
      let ih = retry_from-Retries (min (b * 2) cfg.retry_max) m ts tried.1 in
      elim (Bool-cases t.stop) [
        | inl e ↦ rw e (record { goes_on = GoesOn-refl S h; done = λ f. absurd (false≢true f) })
        | inr e ↦ elim (Bool-cases tried.0) [
          | inl d ↦ rw (e, d) (record { goes_on = a.goes_on; done = λ _. a.done d })
          | inr d ↦
              rw (e, d)
                (record { goes_on = GoesOn-trans S _ _ _ a.goes_on ih.goes_on; done = ih.done })
        ]
      ]

  -- Messages as they come from the topic, with the turns that their handling takes.
  abbrev pub AllDone : List (Message × List Turn) → S.State → Type 0
  AllDone [] s = Unit
  AllDone ((m, ts) ∷ rest) s = IsDone m s × AllDone rest s

  -- Of the topic's messages, those below the committed offset are done; no counter was lost.
  pub record Commits (ms : List (Message × List Turn)) (h : Handling S) (r : ℕ × Handling S)
      : Type 0 where
    pub within : r.0 ≤ length ms
    pub done : AllDone (take r.0 ms) r.1.store
    pub goes_on : GoesOn S h r.1

  consume_cons :
      (m : Message) (ts : List Turn) (rest : List (Message × List Turn)) (h : Handling S)
      (r : Retried S) (later : ℕ × Handling S)
      → Retries m h r
      → Commits rest r.after later
      → Commits
          ((m, ts) ∷ rest)
          h
          (if is_handled S rt decode cfg r.outcome then (suc later.0, later.1) else (0, r.after))
  consume_cons m ts rest h r later a c = elim (Bool-cases (is_handled S rt decode cfg r.outcome)) [
    | inl yes_it_is ↦ rw yes_it_is (record {
      within = omega (arith, c.within);
      done = (
        SettledResult-stays (payload_of S rt decode cfg m) r.after later.1 c.goes_on
            (a.done yes_it_is),
        c.done,
      );
      goes_on = GoesOn-trans S _ _ _ a.goes_on c.goes_on;
    })
    | inr it_is_not ↦ rw it_is_not (record { within = omega arith; done = tt; goes_on = a.goes_on })
  ]

  -- However the database, Redis and a shutdown interfere: the consumer commits the offsets of a
  -- prefix of the topic's messages, every message of that prefix is poison or settled in the store,
  -- what was settled before stays settled, and the counters still add up.
  pub consume-Commits :
      (ms : List (Message × List Turn)) (h : Handling S)
      → Commits ms h (consume S rt decode cfg ms h)
  unfolding consume handle_with_retry
  consume-Commits [] h = record { within = omega arith; done = tt; goes_on = GoesOn-refl S h }
  consume-Commits ((m, ts) ∷ rest) h =
      let r = retry_from S rt decode cfg cfg.retry_initial m ts h in
      consume_cons m ts rest h r (consume S rt decode cfg rest r.after)
        (retry_from-Retries cfg.retry_initial m ts h) (consume-Commits rest r.after)

-- What one store has settled, seen by another.
pub SettledResult-imp :
    (S T : EventStore) (rt : Runtime) (decode : List ℕ → Option String) (cfg : KafkaSettings)
    (o : Result Payload) (s : S.State) (t : T.State)
    → ((q : Payload) → S.IsSettled q s → T.IsSettled q t)
    → SettledResult S rt decode cfg o s
    → SettledResult T rt decode cfg o t
SettledResult-imp S T rt decode cfg (ok p) s t g x = g p x
SettledResult-imp S T rt decode cfg (err e) s t g x = tt
