-- ===== src/Consumers/Kafka/Marks.antt =====
-- What an attempt at a Kafka message (reporting-api/app/consumers/access_events.py) keeps: any
-- property of the store that saves keep, and that every marker was set for a settled event.
use ntu_cloud_native.Prelude.{
  String, Bool, not, ◌&&◌, Option, none, some, List, ◌≡◌, refl, Bool-cases, inl, inr, contains,
  string_eq,
}
use ntu_cloud_native.Result.{Result, ok, err}
use ntu_cloud_native.Ingest.Parse.{Payload, Runtime}
use ntu_cloud_native.Consumers.Base.{
  EventStore, Reachable, save_now, marker_key, AreBacked, AreBacked-Grows,
}
use ntu_cloud_native.Consumers.Kafka.{
  ℕ, Message, KafkaSettings, Handling, payload_of, set_marker, record_save, handle_payload,
  handle_message,
}
use ntu_cloud_native.Consumers.Kafka.Delivery.{save_now-eq_ok}

module _ (S : EventStore) (rt : Runtime) (decode : List ℕ → Option String)
    (cfg : KafkaSettings) where
  abbrev Backed : Handling S → Type 0
  Backed h = AreBacked S rt cfg.redis_persisted_marker_prefix h.markers h.store

  set_marker-AreBacked :
      (b : Bool) (up : Reachable) (p : Payload) (markers : List String) (s : S.State)
      (o : Option String)
      → marker_key rt cfg.redis_persisted_marker_prefix p ≡ o
      → S.IsSettled p s
      → AreBacked S rt cfg.redis_persisted_marker_prefix markers s
      → AreBacked S rt cfg.redis_persisted_marker_prefix (set_marker b up o markers) s
  set_marker-AreBacked b up p markers s none e h k = k
  set_marker-AreBacked b up p markers s (some key) e h k =
      elim (Bool-cases (b && up.redis && not (contains markers key))) [
        | inl new ↦ rw new ((p, e, h), k)
        | inr old ↦ rw old k
      ]

  record_save-Backed :
      (up : Reachable) (p : Payload) (h : Handling S) (o : Result (Bool × S.State))
      → save_now S up p h.store ≡ o
      → Backed h
      → Backed (record_save S rt decode cfg up p h o).1
  unfolding record_save
  record_save-Backed up p h (ok (b, s')) e k =
      let saved : S.save p h.store ≡ ok (b, s') = save_now-eq_ok S up p h.store (b, s') e in
      set_marker-AreBacked cfg.redis_recovery_enabled up p h.markers s'
        (marker_key rt cfg.redis_persisted_marker_prefix p) refl (S.settles p h.store s' b saved)
        (AreBacked-Grows S rt cfg.redis_persisted_marker_prefix h.store s' h.markers
          (λ q x. S.stays p q h.store s' b saved x) k)
  record_save-Backed up p h (err x) e k = k

  handle_payload-Backed :
      (up : Reachable) (h : Handling S) (o : Result Payload)
      → Backed h
      → Backed (handle_payload S rt decode cfg up h o).1
  unfolding handle_payload
  handle_payload-Backed up h (ok p) k = record_save-Backed up p h (save_now S up p h.store) refl k
  handle_payload-Backed up h (err x) k = k

  pub handle_message-Backed :
      (up : Reachable) (m : Message) (h : Handling S)
      → Backed h
      → Backed (handle_message S rt decode cfg up m h).1
  unfolding handle_message
  handle_message-Backed up m h k = handle_payload-Backed up h (payload_of S rt decode cfg m) k

  module _ (P : S.State → Type 0)
      (keeps : (p : Payload) (s s' : S.State) (b : Bool)
        → S.save p s ≡ ok (b, s')
        → P s
        → P s') where
    record_save-keeps :
        (up : Reachable) (p : Payload) (h : Handling S) (o : Result (Bool × S.State))
        → save_now S up p h.store ≡ o
        → P h.store
        → P (record_save S rt decode cfg up p h o).1.store
    unfolding record_save
    record_save-keeps up p h (ok (b, s')) e k =
        keeps p h.store s' b (save_now-eq_ok S up p h.store (b, s') e) k
    record_save-keeps up p h (err x) e k = k

    handle_payload-keeps :
        (up : Reachable) (h : Handling S) (o : Result Payload)
        → P h.store
        → P (handle_payload S rt decode cfg up h o).1.store
    unfolding handle_payload
    handle_payload-keeps up h (ok p) k = record_save-keeps up p h (save_now S up p h.store) refl k
    handle_payload-keeps up h (err x) k = k

    pub handle_message-keeps :
        (up : Reachable) (m : Message) (h : Handling S)
        → P h.store
        → P (handle_message S rt decode cfg up m h).1.store
    unfolding handle_message
    handle_message-keeps up m h k = handle_payload-keeps up h (payload_of S rt decode cfg m) k
