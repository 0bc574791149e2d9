-- ===== src/Consumers/Pipeline/Sessions.antt =====
-- What the sessions of the consumers (reporting-api/app/consumers/) have seen settled, against the
-- database that has gone on since.
use ntu_cloud_native.Consumers.Kafka.Delivery.{SettledResult-imp, IsDone}
use ntu_cloud_native.Consumers.Recovery.Acknowledge.{IsCovered-imp, IsCovered}
use ntu_cloud_native.Consumers.Recovery.{Entry}
use ntu_cloud_native.Consumers.Kafka.{Message, payload_of}
use ntu_cloud_native.Consumers.Base.{AreBacked, Grows}
use ntu_cloud_native.Consumers.Store.{IsSettled-since, IsSettled-stays, HasGrown}
use ntu_cloud_native.Ingest.Parse.{Runtime}
use ntu_cloud_native.Schema.{Database}
use ntu_cloud_native.Prelude.{
  [], none, some, inr, refl, false, inl, All-imp, ◌&&◌, Bool-cases, if◌then◌else◌, ◌∷◌, String,
  true, keep, ℕ, ◌≡◌, All, Option, List, Bool,
}
use ntu_cloud_native.Consumers.Pipeline.{
  Reads, reads_events, reads_employees, reads_departments, PipelineSettings, recovery_settings,
  store, session,
}

pub All-keep {ℓ} :
    {A : Type 0} (P : A → Type ℓ) (p : A → Bool) (xs : List A) → All P xs → All P (keep p xs)
All-keep P p [] h = tt
All-keep P p (x ∷ xs) h = elim (Bool-cases (p x)) [
  | inl in_it ↦ rw in_it (h.0, All-keep P p xs h.1)
  | inr out ↦ rw out (All-keep P p xs h.1)
]

-- An element that may have been put in front.
pub All-cons_if {ℓ} :
    {A : Type 0} (P : A → Type ℓ) (b c : Bool) (x : A) (xs : List A)
    → (b ≡ true → P x)
    → All P xs
    → All P (if b && c then x ∷ xs else xs)
All-cons_if P true true x xs h k = (h refl, k)
All-cons_if P true false x xs h k = k
All-cons_if P false c x xs h k = k

-- The request ids that a session saw are in the database.
abbrev pub IsSince : Database → Option Database → Type 0
IsSince db none = Unit
IsSince db (some seen) = HasGrown seen db

pub IsSince-Grown :
    (db db' : Database) (s : Option Database) → HasGrown db db' → IsSince db s → IsSince db' s
IsSince-Grown db db' none g h = tt
IsSince-Grown db db' (some seen) g h = λ r x. g r (h r x)

pub Reads-IsSince :
    {db : Database} {s t : Option Database} → Reads db s t → IsSince db s → IsSince db t
Reads-IsSince (reads_events s) h = λ r x. x
Reads-IsSince (reads_employees seen) h = h
Reads-IsSince (reads_departments seen) h = h

module _ (rt : Runtime) (decode : List ℕ → Option String) (cfg : PipelineSettings) where
  abbrev pub prefix : String
  prefix = cfg.kafka.redis_persisted_marker_prefix

  pub grows : (db db' : Database) → HasGrown db db' → Grows (store rt decode cfg) rt prefix db db'
  grows db db' g q h = IsSettled-stays cfg.loadtest_skip_prefixes rt q db db' g h

  -- What is known of the session's store is known of the database.
  module _ (seen : Database) where
    pub Backed-in_session :
        (db : Database) (markers : List String)
        → AreBacked (store rt decode cfg) rt prefix markers db
        → AreBacked (session rt decode cfg seen) rt prefix markers db
    Backed-in_session db markers h = All-imp _ _ markers (λ k (p, e, x). (p, e, inl x)) h

    module _ (db : Database) (since : HasGrown seen db) where
      pub Backed-of_session :
          (markers : List String)
          → AreBacked (session rt decode cfg seen) rt prefix markers db
          → AreBacked (store rt decode cfg) rt prefix markers db
      Backed-of_session markers h =
          All-imp _ _ markers
            (λ k (p, e, x). (p, e, IsSettled-since cfg.loadtest_skip_prefixes rt seen p db since x))
            h

      pub Done-of_session :
          (m : Message)
          → IsDone (session rt decode cfg seen) rt decode cfg.kafka m db
          → IsDone (store rt decode cfg) rt decode cfg.kafka m db
      unfolding payload_of
      Done-of_session m h =
          SettledResult-imp (session rt decode cfg seen) (store rt decode cfg) rt decode cfg.kafka
            (payload_of (store rt decode cfg) rt decode cfg.kafka m) db db
            (λ p x. IsSettled-since cfg.loadtest_skip_prefixes rt seen p db since x) h

      pub Covered-of_session :
          (e : Entry)
          → IsCovered (session rt decode cfg seen) rt (recovery_settings cfg) db e
          → IsCovered (store rt decode cfg) rt (recovery_settings cfg) db e
      Covered-of_session e h =
          IsCovered-imp (session rt decode cfg seen) (store rt decode cfg) rt
            (recovery_settings cfg) db db e
            (λ p x. IsSettled-since cfg.loadtest_skip_prefixes rt seen p db since x) h
