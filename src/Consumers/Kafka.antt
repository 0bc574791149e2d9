-- ===== src/Consumers/Kafka.antt =====
-- `AccessEventConsumerService` of reporting-api/app/consumers/access_events.py: how one message of
-- the topic is handled, and retried until it is.
pub mod Delivery
pub mod Backoff
pub mod Marks
use ntu_cloud_native.Prelude.{
  suc, min, ◌&&◌, ℕ, ◌*◌, String, Bool, true, false, not, Option, none, some, List, [], ◌∷◌, ◌≡◌,
  arith, contains, if◌then◌else◌, leb, string_eq, get_or,
}
use ntu_cloud_native.Prelude.Dict.{Dict, lookup, insert}
use ntu_cloud_native.Result.{Result, ok, err, Error, value_error, ◌>>=◌, or_raise}
use ntu_cloud_native.Ingest.Parse.{Payload, Value, text, null, Runtime, parse_access_event}
use ntu_cloud_native.Consumers.Base.{
  EventStore, Status, count_failure, count_saved, Reachable, is_truthy, marker_key, save_now,
}

-- A message of the topic: its bytes and its headers.
pub record Message : Type 0 where
  pub raw : List ℕ
  pub headers : Dict String (List ℕ)

-- One turn of `_merge_trace_headers`; `decode` is `value.decode("utf-8")`.
abbrev merge_header : (List ℕ → Option String) → String → List ℕ → Payload → Result Payload
merge_header decode key [] payload = ok payload
merge_header decode key (b ∷ value) payload =
    if is_truthy (get_or (lookup key payload) null)
    then ok payload
    else (do s ← or_raise (decode (b ∷ value)) value_error; ok (insert key (text s) payload))

unfoldable pub merge_trace_headers :
    (List ℕ → Option String) → Dict String (List ℕ) → Payload → Result Payload
merge_trace_headers decode headers payload = do
  parent ← merge_header decode "traceparent" (get_or (lookup "traceparent" headers) []) payload
  merge_header decode "tracestate" (get_or (lookup "tracestate" headers) []) parent

-- The settings of the consumer, with the retry times in milliseconds.
pub record KafkaSettings : Type 0 where
  pub redis_recovery_enabled : Bool
  pub redis_persisted_marker_prefix : String
  pub retry_initial : ℕ
  pub retry_max : ℕ

-- What the handling of messages changes: the counters, the store, the markers in Redis.
pub record Handling (S : EventStore) : Type 0 where
  pub status : Status
  pub store : S.State
  pub markers : List String

-- Whether `stop()` was called before a turn of the retry loop, and what answers during it.
pub record Turn : Type 0 where
  pub stop : Bool
  pub up : Reachable

-- How the retry loop ends: with True, with False, or not within the turns at hand.
pub data Outcome : Type 0 where
  handled stopped retrying : Outcome

pub record Retried (S : EventStore) : Type 0 where
  pub outcome : Outcome
  -- The times slept, in order.
  pub sleeps : List ℕ
  pub after : Handling S

-- `_mark_persisted`: `SET key 1`, best effort. The markers are those that Redis holds.
abbrev pub set_marker : Bool → Reachable → Option String → List String → List String
set_marker enabled up none markers = markers
set_marker enabled up (some key) markers =
    if enabled && up.redis && not (contains markers key) then key ∷ markers else markers

module _ (S : EventStore) (rt : Runtime) (decode : List ℕ → Option String)
    (cfg : KafkaSettings) where
  -- What `_handle_message` does with the result of the save, and its answer.
  record_save : Reachable → Payload → Handling S → Result (Bool × S.State) → Bool × Handling S
  record_save up p h (ok (inserted, s)) = (
    true,
    record h {
      status = count_saved inserted h.status;
      store = s;
      markers =
          set_marker cfg.redis_recovery_enabled up
            (marker_key rt cfg.redis_persisted_marker_prefix p) h.markers;
    },
  )
  record_save up p h (err e) = (false, record h { status = count_failure e h.status })

  -- What it does with the result of the parsing: a poison message is counted and given up.
  handle_payload : Reachable → Handling S → Result Payload → Bool × Handling S
  unfolding record_save
  handle_payload up h (ok p) = record_save up p h (save_now S up p h.store)
  handle_payload up h (err e) = (true, record h { status = count_failure e h.status })

  -- The payload of a message, with the trace headers merged in.
  unfoldable pub payload_of : Message → Result Payload
  payload_of m = do p ← parse_access_event rt m.raw; merge_trace_headers decode m.headers p

  -- `_handle_message`
  unfoldable pub handle_message : Reachable → Message → Handling S → Bool × Handling S
  unfolding handle_payload
  handle_message up m h = handle_payload up h (payload_of m)

  -- `_handle_with_retry`, from a backoff.
  unfoldable pub retry_from : ℕ → Message → List Turn → Handling S → Retried S
  retry_from backoff m [] h = record { outcome = retrying; sleeps = []; after = h }
  retry_from backoff m (t ∷ ts) h =
      let tried = handle_message t.up m h in
      let rest = retry_from (min (backoff * 2) cfg.retry_max) m ts tried.1 in
      if t.stop
      then record { outcome = stopped; sleeps = []; after = h }
      else if tried.0
      then record { outcome = handled; sleeps = []; after = tried.1 }
      else record rest { sleeps = backoff ∷ rest.sleeps }

  unfoldable pub handle_with_retry : Message → List Turn → Handling S → Retried S
  unfolding retry_from
  handle_with_retry m ts h = retry_from cfg.retry_initial m ts h

  -- What the loop of `_consume_forever` does with the outcome: `commit()` and the next message, or
  -- `break`.
  abbrev is_handled : Outcome → Bool
  is_handled handled = true
  is_handled stopped = false
  is_handled retrying = false

  -- The loop of `_consume_forever` over the messages that the consumer yields, each with its turns;
  -- the result counts the offsets committed.
  unfoldable pub consume : List (Message × List Turn) → Handling S → ℕ × Handling S
  consume [] h = (0, h)
  consume ((m, ts) ∷ rest) h =
      let r = handle_with_retry m ts h in
      let (n, after) = consume rest r.after in
      if is_handled r.outcome then (suc n, after) else (0, r.after)
