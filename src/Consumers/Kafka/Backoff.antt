-- ===== src/Consumers/Kafka/Backoff.antt =====
-- The retry loop of reporting-api/app/consumers/access_events.py: how long it sleeps, and when it
-- ends.
use mathlib.Core.Bool.{false≢true}
use ntu_cloud_native.Prelude.{
  ◌∙◌, sym, if◌then◌else◌, All-imp, ℕ, ◌*◌, ◌≤◌, min, Bool, true, false, Option, List, [], ◌∷◌,
  ◌++◌, ◌≡◌, refl, arith, All, Bool-cases, inl, inr,
}
use ntu_cloud_native.Result.{operational_error, is_ok, Result, ok, err}
use ntu_cloud_native.Ingest.Parse.{Payload, Runtime}
use ntu_cloud_native.Consumers.Base.{EventStore, Reachable, save_now}
use ntu_cloud_native.Consumers.Kafka.{
  String, Message, KafkaSettings, Handling, Turn, handled, retrying, payload_of, handle_message,
  handle_payload, record_save, retry_from, handle_with_retry,
}

module _ (S : EventStore) (rt : Runtime) (decode : List ℕ → Option String)
    (cfg : KafkaSettings) where
  retry_from-sleeps :
      (b : ℕ) (m : Message) (ts : List Turn) (h : Handling S)
      → b ≤ cfg.retry_max
      → All (λ x. (b ≤ x) × (x ≤ cfg.retry_max)) (retry_from S rt decode cfg b m ts h).sleeps
  unfolding retry_from
  retry_from-sleeps b m [] h le = tt
  retry_from-sleeps b m (t ∷ ts) h le =
      let tried = handle_message S rt decode cfg t.up m h in
      elim (Bool-cases t.stop) [
        | inl e ↦ rw e tt
        | inr e ↦ elim (Bool-cases tried.0) [
          | inl d ↦ rw (e, d) tt
          | inr d ↦
              rw (e, d)
                (
                  (omega arith, le),
                  All-imp _ _ _ (λ x k. (omega arith, k.1))
                      (retry_from-sleeps (min (b * 2) cfg.retry_max) m ts tried.1 (omega arith)),
                )
        ]
      ]

  -- Where the initial backoff is set to at most the maximum, every sleep of the retry loop lies
  -- between the two.
  pub backoff_bounds :
      (m : Message) (ts : List Turn) (h : Handling S)
      → cfg.retry_initial ≤ cfg.retry_max
      → All
          (λ x. (cfg.retry_initial ≤ x) × (x ≤ cfg.retry_max))
          (handle_with_retry S rt decode cfg m ts h).sleeps
  unfolding handle_with_retry
  backoff_bounds m ts h le = retry_from-sleeps cfg.retry_initial m ts h le

  -- The turn in which the database answers and nobody has asked the consumer to stop.
  abbrev pub Answers : Turn → Type 0
  Answers t = (t.stop ≡ false) × (t.up.database ≡ true)

  abbrev pub GoesUnstopped : List Turn → Type 0
  GoesUnstopped ts = All (λ t. t.stop ≡ false) ts

  -- The store takes every event of the message: no save of it raises.
  abbrev pub Takes : Message → Type 0
  Takes m =
      (p : Payload)
      → payload_of S rt decode cfg m ≡ ok p
      → (s : S.State) → is_ok (S.save p s) ≡ true

  handle_message-answers :
      (up : Reachable) (m : Message) (h : Handling S)
      → Takes m
      → up.database ≡ true
      → (handle_message S rt decode cfg up m h).0 ≡ true
  unfolding handle_message
  handle_message-answers up m h takes there = go (payload_of S rt decode cfg m) takes
    where
      saved :
          (p : Payload) (o : Result (Bool × S.State))
          → is_ok o ≡ true
          → (record_save S rt decode cfg up p h o).0 ≡ true
      saved p (ok r) e = refl
      saved p (err x) e = absurd (false≢true e)

      go :
          (o : Result Payload)
          → ((p : Payload) → o ≡ ok p → (s : S.State) → is_ok (S.save p s) ≡ true)
          → (handle_payload S rt decode cfg up h o).0 ≡ true
      go (ok p) k = saved p (save_now S up p h.store) (rw there (k p refl h.store))
      go (err e) k = refl

  retry_from-handled :
      (b : ℕ) (m : Message) (early : List Turn) (t : Turn) (late : List Turn) (h : Handling S)
      → Takes m
      → GoesUnstopped early
      → Answers t
      → (retry_from S rt decode cfg b m (early ++ t ∷ late) h).outcome ≡ handled
  unfolding retry_from
  retry_from-handled b m [] t late h takes u a = rw (a.0, handle_message-answers t.up m h takes a.1)
  retry_from-handled b m (x ∷ early) t late h takes u a =
      let tried = handle_message S rt decode cfg x.up m h in
      elim (Bool-cases tried.0) [
        | inl d ↦ rw (u.0, d)
        | inr d ↦
            rw (u.0, d)
              (retry_from-handled (min (b * 2) cfg.retry_max) m early t late tried.1 takes u.1 a)
      ]

  -- A message whose events the store takes is handled as soon as the database answers, however many
  -- attempts failed before, unless the consumer is stopped.
  pub handled_when_database-Answers :
      (m : Message) (early : List Turn) (t : Turn) (late : List Turn) (h : Handling S)
      → Takes m
      → GoesUnstopped early
      → Answers t
      → (handle_with_retry S rt decode cfg m (early ++ t ∷ late) h).outcome ≡ handled
  unfolding handle_with_retry
  handled_when_database-Answers m early t late h =
      retry_from-handled cfg.retry_initial m early t late h

  handle_message-refused :
      (up : Reachable) (m : Message) (h : Handling S) (p : Payload)
      → payload_of S rt decode cfg m ≡ ok p
      → is_ok (S.save p h.store) ≡ false
      → ((handle_message S rt decode cfg up m h).0 ≡ false)
        × ((handle_message S rt decode cfg up m h).1.store ≡ h.store)
  unfolding handle_message
  handle_message-refused up m h p parsed refused =
      rw parsed (saved (save_now S up p h.store) (down up.database))
    where
      saved :
          (o : Result (Bool × S.State))
          → is_ok o ≡ false
          → ((record_save S rt decode cfg up p h o).0 ≡ false)
            × ((record_save S rt decode cfg up p h o).1.store ≡ h.store)
      saved (ok r) e = absurd (false≢true (sym e))
      saved (err x) e = (refl, refl)

      down : (b : Bool) → is_ok (if b then S.save p h.store else err operational_error) ≡ false
      down true = refused
      down false = refl

  retry_from-blocked :
      (b : ℕ) (m : Message) (ts : List Turn) (h : Handling S) (p : Payload)
      → payload_of S rt decode cfg m ≡ ok p
      → is_ok (S.save p h.store) ≡ false
      → GoesUnstopped ts
      → ((retry_from S rt decode cfg b m ts h).outcome ≡ retrying)
        × ((retry_from S rt decode cfg b m ts h).after.store ≡ h.store)
  unfolding retry_from
  retry_from-blocked b m [] h p parsed refused u = (refl, refl)
  retry_from-blocked b m (t ∷ ts) h p parsed refused u =
      let tried = handle_message S rt decode cfg t.up m h in
      let (d, same) = handle_message-refused t.up m h p parsed refused in
      let ih =
        retry_from-blocked (min (b * 2) cfg.retry_max) m ts tried.1 p parsed (rw same refused)
          u.1 in
      rw (u.0, d) (ih.0, ih.1 ∙ same)

  -- A message that parses, but whose event the store refuses, is tried for ever: in whatever turns,
  -- the database up or down, until a stop, the loop never gives it up and stores nothing.
  pub refused_blocks :
      (m : Message) (ts : List Turn) (h : Handling S) (p : Payload)
      → payload_of S rt decode cfg m ≡ ok p
      → is_ok (S.save p h.store) ≡ false
      → GoesUnstopped ts
      → ((handle_with_retry S rt decode cfg m ts h).outcome ≡ retrying)
        × ((handle_with_retry S rt decode cfg m ts h).after.store ≡ h.store)
  unfolding handle_with_retry
  refused_blocks m ts h = retry_from-blocked cfg.retry_initial m ts h
