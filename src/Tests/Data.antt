-- ===== src/Tests/Data.antt =====
-- Test data that the modules of the tests share.
use ntu_cloud_native.Prelude.Decimal.{natural}
use ntu_cloud_native.Prelude.{none, String, some, [], ◌∷◌, ◌*◌}
use ntu_cloud_native.Timestamp.{aware, hour}
use ntu_cloud_native.Schema.{Database}
use ntu_cloud_native.Ingest.Parse.{Payload, text, number, Runtime}

-- The event of employee `who` under a request id.
abbrev pub event_payload : String → String → String → Payload
event_payload request who direction =
    ("requestId", text request)
    ∷ ("employeeId", text who)
    ∷ ("gateId", text "gate_1_A")
    ∷ ("direction", text direction)
    ∷ ("decision", text "GRANTED")
    ∷ ("reason", text "OK")
    ∷ ("previousState", text "OUT")
    ∷ ("currentState", text "IN")
    ∷ ("latencyMs", number (natural 12))
    ∷ ("timestamp", text "2026-06-01T08:00:00Z")
    ∷ []

-- A runtime that reads every byte string as the first event, and every text as one time.
abbrev pub runtime : Runtime
runtime = record {
  loads = λ raw. some (event_payload "r1" "E1" "IN");
  decimal = λ n. "12";
  stored_text = λ v. none;
  parse_int = λ s. some (natural 1000);
  fromisoformat = λ s. some (aware (63_000_000 * hour) (24 * hour));
}

abbrev pub empty_db : Database
empty_db = record {
  departments = [];
  employees = [];
  users = [];
  scopes = [];
  events = [];
  next_event_id = 1;
}

abbrev pub skip : String
skip = "K6CONST, K6RAMP"
