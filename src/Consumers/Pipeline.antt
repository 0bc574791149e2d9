-- ===== src/Consumers/Pipeline.antt =====
-- Both consumers of reporting-api/app/consumers/ at work on one database and one Redis, as
-- interleaved steps. Each consumer has one session at a time, and the two overlap: what a session
-- reads, statement by statement, and what it commits are steps of their own, so that the other
-- consumer may commit in between. An attempt ends with its session: for a Kafka message, which may
-- crash before its offset is committed, and for a stream entry, which may crash before its XACK.
-- Markers expire.
pub mod Sessions
pub mod ExactlyOnce
use ntu_cloud_native.Prelude.{
  ℕ, String, Bool, true, false, ◌&&◌, Option, none, some, List, [], ◌∷◌, ◌≡◌, keep, if◌then◌else◌,
}
use ntu_cloud_native.Schema.{Database}
use ntu_cloud_native.Ingest.Parse.{Runtime}
use ntu_cloud_native.Consumers.Base.{EventStore, Status, Reachable}
use ntu_cloud_native.Consumers.Store.{database_store, session_store}
use ntu_cloud_native.Consumers.Kafka.{Message, KafkaSettings, Handling, handle_message}
use ntu_cloud_native.Consumers.Recovery.{RecoverySettings, Entry, Recovering, process_entry}

pub record World : Type 0 where
  pub db : Database
  pub markers : List String
  pub kafka : Status
  pub recovery : Status
  -- What the open session of each consumer has read of the tables.
  pub kafka_session : Option Database
  pub recovery_session : Option Database
  -- The markers as the recovery looked one up, before its session.
  pub recovery_markers : List String
  -- The messages whose offsets are committed, and the entries acknowledged.
  pub committed : List Message
  pub acknowledged : List Entry

-- The settings, of which both consumers read the marker's prefix.
pub record PipelineSettings : Type 0 where
  pub loadtest_skip_prefixes : String
  pub kafka : KafkaSettings
  pub grace : ℕ

abbrev pub recovery_settings : PipelineSettings → RecoverySettings
recovery_settings cfg = record {
  redis_persisted_marker_prefix = cfg.kafka.redis_persisted_marker_prefix;
  grace = cfg.grace;
}

-- One read of a session from the database as it is at that time: the events when the request id is
-- looked up, with which the session begins, then the employee, then the default department.
pub data Reads (db : Database) : Option Database → Option Database → Type 0 where
  reads_events : (session : Option Database) → Reads db session (some db)
  reads_employees :
      (seen : Database) → Reads db (some seen) (some (record seen { employees = db.employees }))
  reads_departments :
      (seen : Database) → Reads db (some seen) (some (record seen { departments = db.departments }))

module _ (rt : Runtime) (decode : List ℕ → Option String) (cfg : PipelineSettings) where
  abbrev pub store : EventStore
  store = database_store cfg.loadtest_skip_prefixes rt

  -- The database as a session meets it that has read `seen`.
  abbrev pub session : Database → EventStore
  session seen = session_store cfg.loadtest_skip_prefixes rt seen

  abbrev pub kafka_attempt :
      World → (seen : Database) → Reachable → Message → Bool × Handling (session seen)
  kafka_attempt w seen up m =
      handle_message (session seen) rt decode cfg.kafka up m
        (record { status = w.kafka; store = w.db; markers = w.markers })

  abbrev pub after_kafka :
      World → (seen : Database) → Message → Bool → Bool × Handling (session seen) → World
  after_kafka w seen m survives (done, h) = record w {
    db = h.store;
    markers = h.markers;
    kafka = h.status;
    kafka_session = none;
    committed = if done && survives then m ∷ w.committed else w.committed;
  }

  abbrev pub recovery_attempt :
      World → (seen : Database) → Reachable → Entry → Bool × Recovering (session seen)
  recovery_attempt w seen up e =
      process_entry (session seen) rt (recovery_settings cfg) up w.recovery_markers e
        (record { status = w.recovery; store = w.db })

  abbrev pub after_recovery :
      World → (seen : Database) → Entry → Bool → Bool × Recovering (session seen) → World
  after_recovery w seen e survives (should_ack, r) = record w {
    db = r.store;
    recovery = r.status;
    recovery_session = none;
    acknowledged = if should_ack && survives then e ∷ w.acknowledged else w.acknowledged;
  }

  pub data Step : World → World → Type 0 where
    kafka_reads :
        (w : World) (s : Option Database)
        → Reads w.db w.kafka_session s
        → Step w (record w { kafka_session = s })
    kafka_ends :
        (w : World) (seen : Database) (up : Reachable) (m : Message) (survives : Bool)
        → w.kafka_session ≡ some seen
        → Step w (after_kafka w seen m survives (kafka_attempt w seen up m))
    recovery_looks_up : (w : World) → Step w (record w { recovery_markers = w.markers })
    recovery_reads :
        (w : World) (s : Option Database)
        → Reads w.db w.recovery_session s
        → Step w (record w { recovery_session = s })
    recovery_ends :
        (w : World) (seen : Database) (up : Reachable) (e : Entry) (survives : Bool)
        → w.recovery_session ≡ some seen
        → Step w (after_recovery w seen e survives (recovery_attempt w seen up e))
    expire :
        (w : World) (lasts : String → Bool) → Step w (record w { markers = keep lasts w.markers })

  pub data Reach (u : World) : World → Type 0 where
    here : Reach u u
    next : {v w : World} → Reach u v → Step v w → Reach u w
