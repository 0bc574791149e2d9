-- ===== src/Consumers.antt =====
-- The two consumers of reporting-api/app/consumers/: access_events.py reads the Kafka topic,
-- redis_recovery.py the Redis stream, and both hand their events to `save_access_event`.
pub mod Kafka
pub mod Recovery
pub mod Pipeline
pub mod Base
pub mod Liveness
pub mod Store
