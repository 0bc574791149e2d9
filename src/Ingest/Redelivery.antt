-- ===== src/Ingest/Redelivery.antt =====
-- Redelivered events: both consumers may hand the same event to `save_access_event` more than once.
use ntu_cloud_native.Prelude.{string_eq, String, true, false, ◌≡◌, arith}
use ntu_cloud_native.Result.{ok}
use ntu_cloud_native.Schema.{Database}
use ntu_cloud_native.Ingest.Parse.{Payload, Runtime, text_at}
use ntu_cloud_native.Ingest.Tables.{has_request}
use ntu_cloud_native.Ingest.{stage, finish, save_access_event}
use ntu_cloud_native.Ingest.Save.{save_access_event-Inserts, Inserts}

-- An event whose request id is stored is declined, and nothing changes.
save_access_event_stored :
    (skip : String) (rt : Runtime) (p : Payload) (db : Database) (employee request : String)
    → text_at rt p "employeeId" ≡ ok employee
    → text_at rt p "requestId" ≡ ok request
    → has_request request db.events ≡ true
    → save_access_event skip rt p db ≡ ok (false, db)
unfolding save_access_event stage finish
save_access_event_stored skip rt p db employee request e r h = ground arith

-- Once a payload was stored, it is declined when it is saved again, in every state of the database that has its request id, and nothing changes.
pub redelivery :
    (skip : String) (rt : Runtime) (p : Payload) (db db' later : Database) (request : String)
    → save_access_event skip rt p db ≡ ok (true, db')
    → text_at rt p "requestId" ≡ ok request
    → has_request request later.events ≡ true
    → save_access_event skip rt p later ≡ ok (false, later)
redelivery skip rt p db db' later request e r there =
    let i : Inserts skip rt p db db' = save_access_event-Inserts skip rt p db db' e in
    save_access_event_stored skip rt p later i.event.employee_id request i.describes.employee_id r
      there
