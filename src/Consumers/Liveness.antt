-- ===== src/Consumers/Liveness.antt =====
-- When the loop of reporting-api/app/consumers/access_events.py over the reporting database gets past
-- a message, and when it never does.
use ntu_cloud_native.Prelude.{ℕ, String, true, Option, List, ◌∷◌, ◌++◌, ◌≡◌}
use ntu_cloud_native.Result.{Result, ok}
use ntu_cloud_native.Schema.{AccessEvent, event_is_accepted}
use ntu_cloud_native.Ingest.Parse.{Payload, Runtime}
use ntu_cloud_native.Ingest.Save.{Describes}
use ntu_cloud_native.Ingest.Total.{save_access_event_total}
use ntu_cloud_native.Consumers.Store.{database_store}
use ntu_cloud_native.Consumers.Kafka.{
  Message, KafkaSettings, Handling, Turn, handled, payload_of, handle_with_retry,
}
use ntu_cloud_native.Consumers.Kafka.Backoff.{Answers, GoesUnstopped, handled_when_database-Answers}

module _ (skip : String) (rt : Runtime) (decode : List ℕ → Option String)
    (cfg : KafkaSettings) where
  -- A message with an event that fits the tables is handled as soon as the database answers, however
  -- many attempts failed before and whatever is stored, unless the consumer is stopped; no other
  -- session commits during an attempt.
  pub well_formed_message_handled :
      (m : Message) (p : Payload) (e : AccessEvent) (early : List Turn) (t : Turn)
      (late : List Turn) (h : Handling (database_store skip rt))
      → payload_of (database_store skip rt) rt decode cfg m ≡ ok p
      → Describes rt p e
      → event_is_accepted e ≡ true
      → GoesUnstopped (database_store skip rt) rt decode cfg early
      → Answers (database_store skip rt) rt decode cfg t
      → (handle_with_retry (database_store skip rt) rt decode cfg m (early ++ t ∷ late) h).outcome
        ≡ handled
  well_formed_message_handled m p e early t late h parsed d fits u a =
      handled_when_database-Answers (database_store skip rt) rt decode cfg m early t late h
        (λ q same db.
          let q_is : q ≡ p = cc (same, parsed) in
          rw q_is (save_access_event_total skip rt p e d fits db))
        u a
