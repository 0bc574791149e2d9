-- ===== src/Consumers/Store.antt =====
-- `save_access_event` of reporting-api/app/repositories.py as the store behind the consumers.
use ntu_cloud_native.Ingest.Session.{save_in_session-WhatIsWritten}
use ntu_cloud_native.Prelude.{
  inr, inl, ◌++◌, ◌⊎◌, ap, String, Bool, true, false, [], ◌∷◌, ◌≡◌, arith, ◌==◌, string_eq,
  any-append, ==_refl,
}
use ntu_cloud_native.Result.{ok}
use ntu_cloud_native.Schema.{AccessEvent, Database}
use ntu_cloud_native.Ingest.Parse.{Payload, Runtime}
use ntu_cloud_native.Ingest.Tables.{has_request}
use ntu_cloud_native.Ingest.{save_in_session, save_access_event}
use ntu_cloud_native.Ingest.Save.{
  Describes, is_settled, save_access_event-Inserts, save_access_event_declines, Inserts,
}
use ntu_cloud_native.Consumers.Base.{EventStore}

-- Every request id of one database is in another.
abbrev pub HasGrown : Database → Database → Type 0
HasGrown db db' = (r : String) → has_request r db.events ≡ true → has_request r db'.events ≡ true

module _ (skip : String) (rt : Runtime) where
  abbrev pub IsSettled : Payload → Database → Type 0
  IsSettled p db = is_settled skip rt p db ≡ true

  pub appended-has_request :
      (db db' : Database) (e : AccessEvent) (r : String)
      → db'.events ≡ db.events ++ e ∷ []
      → has_request r db.events ≡ true
      → has_request r db'.events ≡ true
  appended-has_request db db' e r appended h =
      rw appended (ground (arith, any-append (λ x. x.request_id == r) db.events (e ∷ [])))

  pub appended-IsSettled :
      (p : Payload) (db db' : Database) (e : AccessEvent)
      → Describes rt p e
      → db'.events ≡ db.events ++ e ∷ []
      → IsSettled p db'
  appended-IsSettled p db db' e d appended = ground (
    arith,
    d.employee_id,
    d.request_id,
    ap (has_request e.request_id) appended,
    any-append (λ x. x.request_id == e.request_id) db.events (e ∷ []),
    ==_refl e.request_id,
  )

  pub IsSettled-stays :
      (q : Payload) (db db' : Database)
      → ((r : String) → has_request r db.events ≡ true → has_request r db'.events ≡ true)
      → IsSettled q db
      → IsSettled q db'
  IsSettled-stays q db db' grows h = grind (arith, grows)

  pub save-settles :
      (p : Payload) (db db' : Database) (b : Bool)
      → save_access_event skip rt p db ≡ ok (b, db')
      → IsSettled p db'
  save-settles p db db' true e =
      let i : Inserts skip rt p db db' = save_access_event-Inserts skip rt p db db' e in
      appended-IsSettled p db db' i.event i.describes i.appended
  save-settles p db db' false e =
      let (same, h) = save_access_event_declines skip rt p db db' e in rw same h

  pub save-stays :
      (p q : Payload) (db db' : Database) (b : Bool)
      → save_access_event skip rt p db ≡ ok (b, db')
      → IsSettled q db
      → IsSettled q db'
  save-stays p q db db' true e h =
      let i : Inserts skip rt p db db' = save_access_event-Inserts skip rt p db db' e in
      IsSettled-stays q db db' (λ r. appended-has_request db db' i.event r i.appended) h
  save-stays p q db db' false e h =
      let (same, _) = save_access_event_declines skip rt p db db' e in rw same h

  -- The reporting database as the store of the consumers.
  abbrev pub database_store : EventStore
  database_store = record {
    State = Database;
    save = save_access_event skip rt;
    IsSettled = IsSettled;
    settles = save-settles;
    stays = save-stays;
  }

-- The reporting database behind a session that has read `seen`. An event is settled when the
-- database has settled it, or when the session saw that it was.
module _ (skip : String) (rt : Runtime) (seen : Database) where
  abbrev pub IsSettledSince : Payload → Database → Type 0
  IsSettledSince p db = IsSettled skip rt p db ⊎ IsSettled skip rt p seen

  pub session-settles :
      (p : Payload) (db db' : Database) (b : Bool)
      → save_in_session skip rt p seen db ≡ ok (b, db')
      → IsSettledSince p db'
  session-settles p db db' true e =
      let (row, d, appended) = save_in_session-WhatIsWritten skip rt p seen db db' true e in
      inl (appended-IsSettled skip rt p db db' row d appended)
  session-settles p db db' false e =
      let (_, h) = save_in_session-WhatIsWritten skip rt p seen db db' false e in inr h

  pub session-grows :
      (p : Payload) (db db' : Database) (b : Bool)
      → save_in_session skip rt p seen db ≡ ok (b, db')
      → (r : String) → has_request r db.events ≡ true
      → has_request r db'.events ≡ true
  session-grows p db db' true e r h =
      let (row, d, appended) = save_in_session-WhatIsWritten skip rt p seen db db' true e in
      appended-has_request skip rt db db' row r appended h
  session-grows p db db' false e r h =
      let (same, _) = save_in_session-WhatIsWritten skip rt p seen db db' false e in rw same h

  pub session-stays :
      (p q : Payload) (db db' : Database) (b : Bool)
      → save_in_session skip rt p seen db ≡ ok (b, db')
      → IsSettledSince q db
      → IsSettledSince q db'
  session-stays p q db db' b e (inl h) =
      inl (IsSettled-stays skip rt q db db' (session-grows p db db' b e) h)
  session-stays p q db db' b e (inr h) = inr h

  abbrev pub session_store : EventStore
  session_store = record {
    State = Database;
    save = λ p db. save_in_session skip rt p seen db;
    IsSettled = IsSettledSince;
    settles = session-settles;
    stays = session-stays;
  }

  -- What a session saw settled is settled in a database that has grown since.
  pub IsSettled-since :
      (p : Payload) (db : Database)
      → ((r : String) → has_request r seen.events ≡ true → has_request r db.events ≡ true)
      → IsSettledSince p db
      → IsSettled skip rt p db
  IsSettled-since p db grew (inl h) = h
  IsSettled-since p db grew (inr h) = IsSettled-stays skip rt p seen db grew h
