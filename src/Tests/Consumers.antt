-- ===== src/Tests/Consumers.antt =====
-- The consumers at concrete inputs.
use ntu_cloud_native.Prelude.Decimal.{natural}
use ntu_cloud_native.Prelude.{
  ◌*◌, ℕ, String, Bool, true, false, Option, none, some, List, [], ◌∷◌, ◌++◌, ◌≤◌, ◌≡◌, refl, arith,
  All, count_where, ◌==◌, string_eq,
}
use ntu_cloud_native.Result.{is_ok, ok}
use ntu_cloud_native.Schema.{AccessEvent, event_is_accepted, employee_is_accepted}
use ntu_cloud_native.Ingest.Parse.{
  Runtime, text_at, number_at, remark_at, parse_access_event, parse_event_timestamp,
}
use ntu_cloud_native.Ingest.{
  save_in_session, stage, commit, save_access_event, is_skipped_loadtest_event,
}
use ntu_cloud_native.Consumers.Base.{EventStore, Status, Reachable}
use ntu_cloud_native.Consumers.Store.{database_store}
use ntu_cloud_native.Consumers.Kafka.{
  Message, KafkaSettings, Handling, Turn, handled, payload_of, handle_message, handle_with_retry,
  consume, merge_trace_headers,
}
use ntu_cloud_native.Consumers.Kafka.Backoff.{backoff_bounds}
use ntu_cloud_native.Consumers.Kafka.Delivery.{Commits, consume-Commits}
use ntu_cloud_native.Consumers.Recovery.{
  request_id_of, payload_from_stream_fields, process_entry, Entry, Recovering, process_entries,
}
use ntu_cloud_native.Consumers.Recovery.Acknowledge.{Processes, process_entries-Processes}
use ntu_cloud_native.Consumers.Pipeline.{
  World, PipelineSettings, store, recovery_settings, kafka_attempt, recovery_attempt, after_kafka,
  after_recovery, Reach, here, next, kafka_reads, kafka_ends, recovery_reads, recovery_ends,
  reads_events,
}
use ntu_cloud_native.Consumers.Pipeline.ExactlyOnce.{IsSound, Reach-IsSound, exactly_once}
use ntu_cloud_native.Timestamp.{hour}
use ntu_cloud_native.Ingest.Save.{Describes}
use ntu_cloud_native.Ingest.Total.{save_access_event_total}
use ntu_cloud_native.Consumers.Liveness.{well_formed_message_handled}
use ntu_cloud_native.Tests.Data.{event_payload, runtime, empty_db, skip}

abbrev message : Message
message = record { raw = 1 ∷ []; headers = [] }

abbrev kafka_settings : KafkaSettings
kafka_settings = record {
  redis_recovery_enabled = true;
  redis_persisted_marker_prefix = "reporting:persisted:";
  retry_initial = 1000;
  retry_max = 30000;
}

abbrev settings : PipelineSettings
settings = record { loadtest_skip_prefixes = skip; kafka = kafka_settings; grace = 30000 }

abbrev idle : Status
idle = record {
  running = true;
  processed = 0;
  inserted = 0;
  duplicates = 0;
  failed = 0;
  last_error = none;
}

abbrev up : Reachable
up = record { database = true; redis = true }

abbrev down : Reachable
down = record { database = false; redis = true }

abbrev decode : List ℕ → Option String
decode bytes = some "00-1"

abbrev start : World
start = record {
  db = empty_db;
  markers = [];
  kafka = idle;
  recovery = idle;
  kafka_session = none;
  recovery_session = none;
  recovery_markers = [];
  committed = [];
  acknowledged = [];
}

abbrev db_store : EventStore
db_store = store runtime decode settings

abbrev start_handling : Handling db_store
start_handling = record { status = idle; store = empty_db; markers = [] }

abbrev turn : Bool → Reachable → Turn
turn stop r = record { stop = stop; up = r }

abbrev entry : Entry
entry = record { message_id = "1700-0"; fields = event_payload "r1" "E1" "IN" }

-- Both sessions read before either commits; the recovery's commit is the first, so that Kafka's
-- fails, and its message is attempted again.
abbrev both_read : World
both_read = record start { kafka_session = some empty_db; recovery_session = some empty_db }

abbrev recovered : World
recovered =
    after_recovery runtime decode settings both_read empty_db entry true
      (recovery_attempt runtime decode settings both_read empty_db up entry)

abbrev raced : World
raced =
    after_kafka runtime decode settings recovered empty_db message true
      (kafka_attempt runtime decode settings recovered empty_db up message)

abbrev read_again : World
read_again = record raced { kafka_session = some raced.db }

abbrev after_one : World
after_one =
    after_kafka runtime decode settings read_again raced.db message true
      (kafka_attempt runtime decode settings read_again raced.db up message)

message_payload :
    payload_of db_store runtime decode kafka_settings message ≡ ok (event_payload "r1" "E1" "IN")
unfolding payload_of parse_access_event merge_trace_headers
message_payload = refl

start-IsSound : IsSound runtime decode settings start
start-IsSound = ground arith

Reach-one : Reach runtime decode settings start after_one
Reach-one =
    next
      (next
        (next
          (next
            (next (next here (kafka_reads start (some empty_db) (reads_events none))) (
              recovery_reads (record start { kafka_session = some empty_db }) (some empty_db)
                (reads_events none)))
            (recovery_ends both_read empty_db up entry true refl))
          (kafka_ends recovered empty_db up message true refl))
        (kafka_reads raced (some raced.db) (reads_events none)))
      (kafka_ends read_again raced.db up message true refl)

Reach-IsSound_example : IsSound runtime decode settings after_one
Reach-IsSound_example = Reach-IsSound runtime decode settings start-IsSound Reach-one

-- The attempt that lost the race committed nothing.
raced_uncommitted : raced.committed ≡ []
unfolding handle_message payload_of parse_access_event merge_trace_headers save_in_session stage
    commit text_at number_at remark_at parse_event_timestamp is_skipped_loadtest_event process_entry
    payload_from_stream_fields request_id_of event_is_accepted employee_is_accepted
raced_uncommitted = refl

after_one_committed : after_one.committed ≡ [] ++ message ∷ []
unfolding handle_message payload_of parse_access_event merge_trace_headers save_in_session stage
    commit text_at number_at remark_at parse_event_timestamp is_skipped_loadtest_event process_entry
    payload_from_stream_fields request_id_of event_is_accepted employee_is_accepted
after_one_committed = refl

text_at-event :
    (text_at runtime (event_payload "r1" "E1" "IN") "employeeId" ≡ ok "E1")
    × (text_at runtime (event_payload "r1" "E1" "IN") "requestId" ≡ ok "r1")
unfolding text_at
text_at-event = (refl, refl)

not_skipped : is_skipped_loadtest_event skip "E1" ≡ false
unfolding is_skipped_loadtest_event
not_skipped = refl

exactly_once_example : count_where (λ e. e.request_id == "r1") after_one.db.events ≡ 1
exactly_once_example =
    exactly_once runtime decode settings start after_one [] message []
      (event_payload "r1" "E1" "IN") "E1" "r1" start-IsSound Reach-one after_one_committed
      message_payload text_at-event.0 text_at-event.1 not_skipped

consume-Commits_example :
    Commits db_store runtime decode kafka_settings
      ((message, turn false down ∷ turn false up ∷ []) ∷ [])
      start_handling
      (consume db_store runtime decode kafka_settings
        ((message, turn false down ∷ turn false up ∷ []) ∷ [])
        start_handling)
consume-Commits_example =
    consume-Commits db_store runtime decode kafka_settings
      ((message, turn false down ∷ turn false up ∷ []) ∷ []) start_handling

backoff_bounds_example :
    All
      (λ x. (1000 ≤ x) × (x ≤ 30000))
      (handle_with_retry db_store runtime decode kafka_settings message
        (turn false down ∷ turn false down ∷ [])
        start_handling).sleeps
backoff_bounds_example =
    backoff_bounds db_store runtime decode kafka_settings message
      (turn false down ∷ turn false down ∷ []) start_handling (omega arith)

abbrev event_of : String → AccessEvent
event_of direction = record {
  id = 1;
  request_id = "r1";
  employee_id = "E1";
  gate_id = "gate_1_A";
  direction = direction;
  decision = "GRANTED";
  reason = "OK";
  previous_state = "OUT";
  current_state = "IN";
  latency_ms = natural 12;
  remark = none;
  occurred_at = 63_000_008 * hour;
}

event-Describes : Describes runtime (event_payload "r1" "E1" "IN") (event_of "IN")
unfolding text_at number_at remark_at parse_event_timestamp
event-Describes = record {
  request_id = refl;
  employee_id = refl;
  gate_id = refl;
  direction = refl;
  decision = refl;
  reason = refl;
  previous_state = refl;
  current_state = refl;
  latency_ms = refl;
  remark = refl;
  occurred_at = refl;
}

event-is_accepted : event_is_accepted (event_of "IN") ≡ true
unfolding event_is_accepted
event-is_accepted = refl

save_access_event_total_example :
    is_ok (save_access_event skip runtime (event_payload "r1" "E1" "IN") empty_db) ≡ true
save_access_event_total_example =
    save_access_event_total skip runtime (event_payload "r1" "E1" "IN") (event_of "IN")
      event-Describes event-is_accepted empty_db

abbrev start_at_database : Handling (database_store skip runtime)
start_at_database = record { status = idle; store = empty_db; markers = [] }

message_payload_at_database :
    payload_of (database_store skip runtime) runtime decode kafka_settings message
    ≡ ok (event_payload "r1" "E1" "IN")
unfolding payload_of parse_access_event merge_trace_headers
message_payload_at_database = refl

well_formed_message_handled_example :
    (handle_with_retry
      (database_store skip runtime)
      runtime
      decode
      kafka_settings
      message
      ((turn false down ∷ []) ++ turn false up ∷ [])
      start_at_database).outcome
    ≡ handled
well_formed_message_handled_example =
    well_formed_message_handled skip runtime decode kafka_settings message
      (event_payload "r1" "E1" "IN") (event_of "IN") (turn false down ∷ []) (turn false up) []
      start_at_database message_payload_at_database event-Describes event-is_accepted (refl, tt)
      (refl, refl)

-- A runtime that reads every byte string as an event with a direction that the table refuses.
abbrev odd_runtime : Runtime
odd_runtime = record runtime { loads = λ raw. some (event_payload "r1" "E1" "SIDEWAYS") }

abbrev start_odd : Handling (database_store skip odd_runtime)
start_odd = record { status = idle; store = empty_db; markers = [] }

abbrev start_recovering : Recovering db_store
start_recovering = record { status = idle; store = empty_db }

abbrev batch : List (Entry × Reachable × List String)
batch = (entry, down, []) ∷ (entry, up, []) ∷ []

process_entries-Processes_example :
    Processes db_store runtime
      (recovery_settings settings)
      start_recovering
      (process_entries db_store runtime (recovery_settings settings) batch start_recovering).0
      (process_entries db_store runtime (recovery_settings settings) batch start_recovering).1
process_entries-Processes_example =
    process_entries-Processes db_store runtime (recovery_settings settings) batch start_recovering
      (tt, (tt, tt))
