-- ===== src/Consumers/Base.antt =====
-- What the two consumers of reporting-api/app/consumers/ share: the counters of their status, the
-- Redis markers, and the store behind `save_access_event` as an interface, with the two laws that
-- the consumers rest on.
use mathlib.Core.Bool.{false≢true}
use ntu_cloud_native.Prelude.Decimal.{natural, below_zero}
use ntu_cloud_native.Prelude.{
  inr, eq_of_==, inl, ◌==◌, All-imp, Bool-cases, All, ℕ, ◌+◌, String, Bool, true, false, Option,
  none, some, List, [], ◌∷◌, ◌≡◌, contains, if◌then◌else◌, eqb, string_eq,
}
use ntu_cloud_native.Prelude.Dict.{lookup}
use ntu_cloud_native.Prelude.Text.{is_empty}
use Prim.Native.String.{◌++◌ as ◌<>◌}
use ntu_cloud_native.Result.{Result, ok, err, Error, operational_error}
use ntu_cloud_native.Ingest.Parse.{Payload, Value, text, number, boolean, null, Runtime, str}

-- The store that a consumer writes to. `IsSettled p s`: the store needs no further delivery of `p`.
pub record EventStore : Type 1 where
  pub State : Type 0
  pub save : Payload → State → Result (Bool × State)
  pub IsSettled : Payload → State → Type 0
  -- A save that returns has settled its event,
  pub settles : (p : Payload) (s s' : State) (b : Bool) → save p s ≡ ok (b, s') → IsSettled p s'
  -- and no save unsettles another.
  pub stays :
      (p q : Payload) (s s' : State) (b : Bool)
      → save p s ≡ ok (b, s')
      → IsSettled q s
      → IsSettled q s'

-- `ConsumerStatus` and `RedisRecoveryStatus`, without the fields that are copied from the settings.
pub record Status : Type 0 where
  pub running : Bool
  pub processed : ℕ
  pub inserted : ℕ
  pub duplicates : ℕ
  pub failed : ℕ
  pub last_error : Option Error

-- Every event that was processed is counted once more, as inserted or as a duplicate.
abbrev pub IsCounted : Status → Type 0
IsCounted s = s.processed ≡ s.inserted + s.duplicates

abbrev pub count_failure : Error → Status → Status
count_failure e s = record s { failed = s.failed + 1; last_error = some e }

abbrev pub count_saved : Bool → Status → Status
count_saved true s = record s { processed = s.processed + 1; inserted = s.inserted + 1 }
count_saved false s = record s { processed = s.processed + 1; duplicates = s.duplicates + 1 }

-- Whether the database and Redis answer during a call.
pub record Reachable : Type 0 where
  pub database : Bool
  pub redis : Bool

-- A value as a Python condition.
abbrev pub is_truthy : Value → Bool
is_truthy (text s) = if is_empty s then false else true
is_truthy (number (natural n)) = if eqb n 0 then false else true
is_truthy (number (below_zero n)) = true
is_truthy (boolean b) = b
is_truthy null = false

-- The marker's key, `prefix + str(request_id)`, for a request id that is not empty.
marker_of : Runtime → String → Option Value → Option String
marker_of rt prefix none = none
marker_of rt prefix (some value) = if is_truthy value then some (prefix <> str rt value) else none

unfoldable pub marker_key : Runtime → String → Payload → Option String
unfolding marker_of
marker_key rt prefix p = marker_of rt prefix (lookup "requestId" p)

-- `await asyncio.to_thread(save_access_event, payload)`: without the database it raises.
abbrev pub save_now : (S : EventStore) → Reachable → Payload → S.State → Result (Bool × S.State)
save_now S up p s = if up.database then S.save p s else err operational_error

module _ (S : EventStore) (rt : Runtime) (prefix : String) where
  -- The marker `key` was set for an event that is settled.
  abbrev pub IsBacked : S.State → String → Type 0
  IsBacked s key = (p : Payload) × (marker_key rt prefix p ≡ some key) × S.IsSettled p s

  abbrev pub AreBacked : List String → S.State → Type 0
  AreBacked markers s = All (IsBacked s) markers

  -- What a store that went on from another keeps.
  abbrev pub Grows : S.State → S.State → Type 0
  Grows s s' = (q : Payload) → S.IsSettled q s → S.IsSettled q s'

  pub IsBacked-Grows : (s s' : S.State) (k : String) → Grows s s' → IsBacked s k → IsBacked s' k
  IsBacked-Grows s s' k g (p, e, h) = (p, e, g p h)

  pub AreBacked-Grows :
      (s s' : S.State) (markers : List String)
      → Grows s s'
      → AreBacked markers s
      → AreBacked markers s'
  AreBacked-Grows s s' markers g h = All-imp _ _ markers (λ k. IsBacked-Grows s s' k g) h

  pub IsBacked-of_contains :
      (markers : List String) (s : S.State) (key : String)
      → AreBacked markers s
      → contains markers key ≡ true
      → IsBacked s key
  IsBacked-of_contains [] s key h e = absurd (false≢true e)
  IsBacked-of_contains (k ∷ ks) s key h e = elim (Bool-cases (key == k)) [
    | inl same ↦ rw (eq_of_== key k same) h.0
    | inr other ↦ IsBacked-of_contains ks s key h.1 (rw other at e)
  ]
