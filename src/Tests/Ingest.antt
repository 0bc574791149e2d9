-- ===== src/Tests/Ingest.antt =====
-- Ingestion at concrete inputs.
use ntu_cloud_native.Ingest.Tables.{has_request}
use ntu_cloud_native.Prelude.{Bool, true, false, ◌≡◌, refl, arith}
use ntu_cloud_native.Result.{Result, ok, err, integrity_error}
use ntu_cloud_native.Schema.{Database, event_is_accepted, employee_is_accepted}
use ntu_cloud_native.Ingest.Parse.{text_at, number_at, remark_at, parse_event_timestamp}
use ntu_cloud_native.Ingest.{
  stage, commit, save_access_event, after_save, is_skipped_loadtest_event,
}
use ntu_cloud_native.Ingest.Invariant.{IsValid}
use ntu_cloud_native.Ingest.Save.{
  Inserts, is_settled, save_access_event-Inserts, save_access_event_declines,
}
use ntu_cloud_native.Ingest.Redelivery.{redelivery}
use ntu_cloud_native.Tests.Data.{event_payload, runtime, empty_db, skip}

abbrev first_save : Result (Bool × Database)
first_save = save_access_event skip runtime (event_payload "r1" "E1" "IN") empty_db

abbrev stored_db : Database
stored_db = after_save first_save empty_db

first_save-true : first_save ≡ ok (true, stored_db)
unfolding save_access_event stage commit text_at number_at remark_at parse_event_timestamp
    is_skipped_loadtest_event event_is_accepted employee_is_accepted after_save
first_save-true = refl

skipped_prefix : is_skipped_loadtest_event skip "K6RAMP-17" ≡ true
unfolding is_skipped_loadtest_event
skipped_prefix = refl

-- A direction that the table does not take.
bad_direction :
    save_access_event skip runtime (event_payload "r2" "E1" "SIDEWAYS") empty_db
    ≡ err integrity_error
unfolding save_access_event stage commit text_at number_at remark_at parse_event_timestamp
    is_skipped_loadtest_event event_is_accepted employee_is_accepted
bad_direction = refl

save_access_event-Inserts_example :
    Inserts skip runtime (event_payload "r1" "E1" "IN") empty_db stored_db
save_access_event-Inserts_example =
    save_access_event-Inserts skip runtime (event_payload "r1" "E1" "IN") empty_db stored_db
      first_save-true

empty_db-IsValid : IsValid empty_db
empty_db-IsValid = ground arith

request_of_event : text_at runtime (event_payload "r1" "E1" "IN") "requestId" ≡ ok "r1"
unfolding text_at
request_of_event = refl

request_is_stored : has_request "r1" stored_db.events ≡ true
unfolding save_access_event stage commit text_at number_at remark_at parse_event_timestamp
    is_skipped_loadtest_event event_is_accepted employee_is_accepted after_save
request_is_stored = refl

redelivery_example :
    save_access_event skip runtime (event_payload "r1" "E1" "IN") stored_db ≡ ok (false, stored_db)
redelivery_example =
    redelivery skip runtime (event_payload "r1" "E1" "IN") empty_db stored_db stored_db "r1"
      first_save-true request_of_event request_is_stored

save_access_event_declines_example :
    (stored_db ≡ stored_db)
    × (is_settled skip runtime (event_payload "r1" "E1" "IN") stored_db ≡ true)
save_access_event_declines_example =
    save_access_event_declines skip runtime (event_payload "r1" "E1" "IN") stored_db stored_db
      redelivery_example
