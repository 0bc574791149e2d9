-- ===== src/Ingest/Session.antt =====
-- A save of reporting-api/app/repositories.py whose session read the tables before other sessions
-- committed: what it stores then, when it answers False, and that the constraints hold.
use ntu_cloud_native.Ingest.Invariant.{IsValid}
use ntu_cloud_native.Result.{Ensures-bind, Ensures-ok, ok, Ensures}
use ntu_cloud_native.Ingest.Save.{
  commit-CommitWrites, CommitWrites, finish-IsValid, is_settled, stage-WhatIsStaged, Describes,
  WhatIsStaged,
}
use ntu_cloud_native.Schema.{AccessEvent, Database}
use ntu_cloud_native.Ingest.Parse.{Payload, Runtime}
use ntu_cloud_native.Prelude.{
  refl, none, some, false, true, [], ◌∷◌, ◌++◌, ◌≡◌, Option, Bool, String,
}
use ntu_cloud_native.Ingest.{Staged, finish, commit, stage, save_in_session}

-- The outcome: True with one event appended that the payload describes, and whose request id was
-- not in the table at the commit; False with nothing changed, the event settled when it was read.
abbrev pub WhatIsWritten :
    String → Runtime → Payload → Database → Database → Bool × Database → Type 0
WhatIsWritten skip rt p seen db (true, db') =
    (e : AccessEvent) × Describes rt p e × (db'.events ≡ db.events ++ e ∷ [])
WhatIsWritten skip rt p seen db (false, db') = (db' ≡ db) × (is_settled skip rt p seen ≡ true)

finish-WhatIsWritten :
    (skip : String) (rt : Runtime) (p : Payload) (seen db : Database) (o : Option Staged)
    → WhatIsStaged skip rt p seen o
    → Ensures (WhatIsWritten skip rt p seen db) (finish o db)
unfolding finish
finish-WhatIsWritten skip rt p seen db none h = (refl, h)
finish-WhatIsWritten skip rt p seen db (some s) h =
    Ensures-bind (CommitWrites s db) (WhatIsWritten skip rt p seen db) (commit s db) _
      (commit-CommitWrites s db h.same_employee)
      λ db' w. (s.event db.next_event_id, h.describes db.next_event_id, w.events)

pub save_in_session-WhatIsWritten :
    (skip : String) (rt : Runtime) (p : Payload) (seen db db' : Database) (b : Bool)
    → save_in_session skip rt p seen db ≡ ok (b, db')
    → WhatIsWritten skip rt p seen db (b, db')
unfolding save_in_session
save_in_session-WhatIsWritten skip rt p seen db db' b e =
    Ensures-ok (WhatIsWritten skip rt p seen db) (save_in_session skip rt p seen db)
      (Ensures-bind (WhatIsStaged skip rt p seen) (WhatIsWritten skip rt p seen db)
        (stage skip rt p seen) _ (stage-WhatIsStaged skip rt p seen)
        (finish-WhatIsWritten skip rt p seen db))
      e

-- Whatever the session had read, its commit keeps the invariant.
pub save_in_session-IsValid :
    (skip : String) (rt : Runtime) (p : Payload) (seen db db' : Database) (b : Bool)
    → save_in_session skip rt p seen db ≡ ok (b, db')
    → IsValid db
    → IsValid db'
unfolding save_in_session
save_in_session-IsValid skip rt p seen db db' b e v =
    Ensures-ok (λ (r : Bool × Database). IsValid r.1) (save_in_session skip rt p seen db)
      (Ensures-bind (WhatIsStaged skip rt p seen) (λ (r : Bool × Database). IsValid r.1)
        (stage skip rt p seen) _ (stage-WhatIsStaged skip rt p seen)
        λ o h. finish-IsValid skip rt p seen db o v h)
      e
