-- ===== src/Consumers/Pipeline/ExactlyOnce.antt =====
-- Delivery through both consumers: no event is lost, none is stored twice.
use ntu_cloud_native.Ingest.Session.{save_in_session-IsValid}
use ntu_cloud_native.Consumers.Store.{session-grows, HasGrown}
use ntu_cloud_native.Prelude.{
  some, All-middle, ◌++◌, ℕ, String, Bool, true, false, Option, List, ◌∷◌, ◌≡◌, arith, All, All-imp,
  count_where, any_of_count_where, ◌==◌, string_eq,
}
use ntu_cloud_native.Result.{ok}
use ntu_cloud_native.Schema.{Database}
use ntu_cloud_native.Ingest.{save_in_session, is_skipped_loadtest_event}
use ntu_cloud_native.Ingest.Invariant.{IsValid}
use ntu_cloud_native.Ingest.Save.{is_settled}
use ntu_cloud_native.Ingest.Parse.{Payload, Runtime, text_at}
use ntu_cloud_native.Consumers.Base.{EventStore, Reachable, IsCounted}
use ntu_cloud_native.Consumers.Kafka.{Message, Handling, payload_of}
use ntu_cloud_native.Consumers.Kafka.Delivery.{IsDone-grows, IsDone, handle_message-Attempts}
use ntu_cloud_native.Consumers.Recovery.{Entry, Recovering}
use ntu_cloud_native.Consumers.Recovery.Acknowledge.{
  IsCovered, IsCovered-Grows, process_entry_lem, process_entry-keeps,
}
use ntu_cloud_native.Consumers.Base.{AreBacked, AreBacked-Grows}
use ntu_cloud_native.Consumers.Kafka.Marks.{handle_message-keeps, handle_message-Backed}
use ntu_cloud_native.Ingest.Tables.{has_request}
use ntu_cloud_native.Consumers.Pipeline.Sessions.{
  All-keep, All-cons_if, IsSince, IsSince-Grown, Reads-IsSince, prefix, grows, Backed-in_session,
  Backed-of_session, Done-of_session, Covered-of_session,
}
use ntu_cloud_native.Consumers.Pipeline.{
  World, PipelineSettings, recovery_settings, store, session, kafka_attempt, recovery_attempt,
  after_kafka, after_recovery, Step, kafka_reads, kafka_ends, recovery_looks_up, recovery_reads,
  recovery_ends, expire, Reach, here, next,
}

module _ (rt : Runtime) (decode : List ℕ → Option String) (cfg : PipelineSettings) where
  -- What holds of every world that the steps reach.
  pub record IsSound (w : World) : Type 0 where
    pub valid : IsValid w.db
    pub backed : AreBacked (store rt decode cfg) rt (prefix rt decode cfg) w.markers w.db
    pub backed_lookup :
        AreBacked (store rt decode cfg) rt (prefix rt decode cfg) w.recovery_markers w.db
    pub kafka_since : IsSince w.db w.kafka_session
    pub recovery_since : IsSince w.db w.recovery_session
    pub done : All (λ m. IsDone (store rt decode cfg) rt decode cfg.kafka m w.db) w.committed
    pub covered :
        All (IsCovered (store rt decode cfg) rt (recovery_settings cfg) w.db) w.acknowledged
    pub kafka_counts : IsCounted w.kafka
    pub recovery_counts : IsCounted w.recovery

  -- The database goes on to `db'`, and whatever was known of the world stays so.
  record Later (v : World) (db' : Database) : Type 0 where
    valid : IsValid db'
    grown : HasGrown v.db db'
    backed_lookup : AreBacked (store rt decode cfg) rt (prefix rt decode cfg) v.recovery_markers db'
    backed : AreBacked (store rt decode cfg) rt (prefix rt decode cfg) v.markers db'
    done : All (λ m. IsDone (store rt decode cfg) rt decode cfg.kafka m db') v.committed
    covered : All (IsCovered (store rt decode cfg) rt (recovery_settings cfg) db') v.acknowledged
    kafka_since : IsSince db' v.kafka_session
    recovery_since : IsSince db' v.recovery_session

  Later-of :
      (v : World) (db' : Database) → IsSound v → IsValid db' × HasGrown v.db db' → Later v db'
  Later-of v db' s (valid, g) = record {
    valid = valid;
    grown = g;
    backed_lookup =
        AreBacked-Grows (store rt decode cfg) rt (prefix rt decode cfg) v.db db' v.recovery_markers
          (grows rt decode cfg v.db db' g) s.backed_lookup;
    backed =
        AreBacked-Grows (store rt decode cfg) rt (prefix rt decode cfg) v.db db' v.markers
          (grows rt decode cfg v.db db' g) s.backed;
    done =
        All-imp _ _ v.committed
          (λ m.
            IsDone-grows (store rt decode cfg) rt decode cfg.kafka m v.db db'
              (grows rt decode cfg v.db db' g))
          s.done;
    covered =
        All-imp _ _ v.acknowledged
          (λ e.
            IsCovered-Grows (store rt decode cfg) rt (recovery_settings cfg) v.db db' e
              (grows rt decode cfg v.db db' g))
          s.covered;
    kafka_since = IsSince-Grown v.db db' v.kafka_session g s.kafka_since;
    recovery_since = IsSince-Grown v.db db' v.recovery_session g s.recovery_since;
  }

  -- A save keeps the invariant and every request id.
  abbrev IsLater : Database → Database → Type 0
  IsLater db db' = IsValid db' × HasGrown db db'

  save-keeps_IsLater :
      (seen db₀ : Database) (p : Payload) (db db' : Database) (b : Bool)
      → save_in_session cfg.loadtest_skip_prefixes rt p seen db ≡ ok (b, db')
      → IsLater db₀ db
      → IsLater db₀ db'
  save-keeps_IsLater seen db₀ p db db' b e (v, g) = (
    save_in_session-IsValid cfg.loadtest_skip_prefixes rt p seen db db' b e v,
    λ r x. session-grows cfg.loadtest_skip_prefixes rt seen p db db' b e r (g r x),
  )

  kafka_ends-IsSound :
      (v : World) (seen : Database) (up : Reachable) (m : Message) (survives : Bool)
      → v.kafka_session ≡ some seen
      → IsSound v
      → IsSound
          (after_kafka rt decode cfg v seen m survives (kafka_attempt rt decode cfg v seen up m))
  kafka_ends-IsSound v seen up m survives opened s =
      let S : EventStore = session rt decode cfg seen in
      let h : Handling S = record { status = v.kafka; store = v.db; markers = v.markers } in
      let r = kafka_attempt rt decode cfg v seen up m in
      let l : Later v r.1.store = Later-of v r.1.store s (
        handle_message-keeps S rt decode cfg.kafka (IsLater v.db) (save-keeps_IsLater seen v.db) up
          m h (s.valid, λ r x. x)) in
      let since : HasGrown seen r.1.store = rw opened at l.kafka_since in
      let a = handle_message-Attempts S rt decode cfg.kafka up m h in
      record {
        valid = l.valid;
        backed = Backed-of_session rt decode cfg seen r.1.store since r.1.markers (
            handle_message-Backed S rt decode cfg.kafka up m h
              (Backed-in_session rt decode cfg seen v.db v.markers s.backed));
        backed_lookup = l.backed_lookup;
        kafka_since = tt;
        recovery_since = l.recovery_since;
        done =
            All-cons_if _ r.0 survives m v.committed
              (λ t. Done-of_session rt decode cfg seen r.1.store since m (a.done t)) l.done;
        covered = l.covered;
        kafka_counts = a.goes_on.counted s.kafka_counts;
        recovery_counts = s.recovery_counts;
      }

  recovery_ends-IsSound :
      (v : World) (seen : Database) (up : Reachable) (e : Entry) (survives : Bool)
      → v.recovery_session ≡ some seen
      → IsSound v
      → IsSound (
          after_recovery rt decode cfg v seen e survives
            (recovery_attempt rt decode cfg v seen up e))
  recovery_ends-IsSound v seen up e survives opened s =
      let S : EventStore = session rt decode cfg seen in
      let r₀ : Recovering S = record { status = v.recovery; store = v.db } in
      let r = recovery_attempt rt decode cfg v seen up e in
      let l : Later v r.1.store = Later-of v r.1.store s (
        process_entry-keeps S rt (recovery_settings cfg) (IsLater v.db)
          (save-keeps_IsLater seen v.db) up v.recovery_markers e r₀ (s.valid, λ r x. x)) in
      let since : HasGrown seen r.1.store = rw opened at l.recovery_since in
      let (counted, grown, covers) =
        process_entry_lem S rt (recovery_settings cfg) up v.recovery_markers e r₀
          (Backed-in_session rt decode cfg seen v.db v.recovery_markers s.backed_lookup) in
      record {
        valid = l.valid;
        backed = l.backed;
        backed_lookup = l.backed_lookup;
        kafka_since = l.kafka_since;
        recovery_since = tt;
        done = l.done;
        covered =
            All-cons_if _ r.0 survives e v.acknowledged
              (λ t. Covered-of_session rt decode cfg seen r.1.store since e (covers t)) l.covered;
        kafka_counts = s.kafka_counts;
        recovery_counts = counted s.recovery_counts;
      }

  Step-IsSound : {v w : World} → Step rt decode cfg v w → IsSound v → IsSound w
  Step-IsSound (kafka_reads v t reads) s = record {
    valid = s.valid;
    backed = s.backed;
    backed_lookup = s.backed_lookup;
    kafka_since = Reads-IsSince reads s.kafka_since;
    recovery_since = s.recovery_since;
    done = s.done;
    covered = s.covered;
    kafka_counts = s.kafka_counts;
    recovery_counts = s.recovery_counts;
  }
  Step-IsSound (kafka_ends v seen up m survives opened) s =
      kafka_ends-IsSound v seen up m survives opened s
  Step-IsSound (recovery_looks_up v) s = record {
    valid = s.valid;
    backed = s.backed;
    backed_lookup = s.backed;
    kafka_since = s.kafka_since;
    recovery_since = s.recovery_since;
    done = s.done;
    covered = s.covered;
    kafka_counts = s.kafka_counts;
    recovery_counts = s.recovery_counts;
  }
  Step-IsSound (recovery_reads v t reads) s = record {
    valid = s.valid;
    backed = s.backed;
    backed_lookup = s.backed_lookup;
    kafka_since = s.kafka_since;
    recovery_since = Reads-IsSince reads s.recovery_since;
    done = s.done;
    covered = s.covered;
    kafka_counts = s.kafka_counts;
    recovery_counts = s.recovery_counts;
  }
  Step-IsSound (recovery_ends v seen up e survives opened) s =
      recovery_ends-IsSound v seen up e survives opened s
  Step-IsSound (expire v lasts) s = record {
    valid = s.valid;
    backed = All-keep _ lasts v.markers s.backed;
    backed_lookup = s.backed_lookup;
    kafka_since = s.kafka_since;
    recovery_since = s.recovery_since;
    done = s.done;
    covered = s.covered;
    kafka_counts = s.kafka_counts;
    recovery_counts = s.recovery_counts;
  }

  -- Whatever the interleaving of the two consumers and of their sessions, the outages, the crashes between a save and its
  -- commit or acknowledgement, and the markers that expire: the database stays valid, every
  -- committed message is done, every acknowledged entry is covered, and the counters add up.
  pub Reach-IsSound : {v w : World} → IsSound v → Reach rt decode cfg v w → IsSound w
  Reach-IsSound s here = s
  Reach-IsSound s (next r st) = Step-IsSound st (Reach-IsSound s r)

  stored_once :
      (p : Payload) (db : Database) (employee request : String)
      → IsValid db
      → is_settled cfg.loadtest_skip_prefixes rt p db ≡ true
      → text_at rt p "employeeId" ≡ ok employee
      → text_at rt p "requestId" ≡ ok request
      → is_skipped_loadtest_event cfg.loadtest_skip_prefixes employee ≡ false
      → count_where (λ e. e.request_id == request) db.events ≡ 1
  stored_once p db employee request v settled e r counted =
      let there : has_request request db.events ≡ true = ground arith in
      omega
        (arith, v.once request, any_of_count_where (λ e. e.request_id == request) db.events there)

  -- Exactly once: in every world reached from a sound one, each committed message that parses and
  -- whose employee is no load-test employee has exactly one row under its request id.
  pub exactly_once :
      (v w : World) (later : List Message) (m : Message) (earlier : List Message) (p : Payload)
      (employee request : String)
      → IsSound v
      → Reach rt decode cfg v w
      → w.committed ≡ later ++ m ∷ earlier
      → payload_of (store rt decode cfg) rt decode cfg.kafka m ≡ ok p
      → text_at rt p "employeeId" ≡ ok employee
      → text_at rt p "requestId" ≡ ok request
      → is_skipped_loadtest_event cfg.loadtest_skip_prefixes employee ≡ false
      → count_where (λ e. e.request_id == request) w.db.events ≡ 1
  exactly_once v w later m earlier p employee request s r head parsed e q counted =
      let sound : IsSound w = Reach-IsSound s r in
      let d = All-middle _ later m earlier (rw head at sound.done) in
      stored_once p w.db employee request sound.valid (rw parsed at d) e q counted
