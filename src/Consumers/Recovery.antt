-- ===== src/Consumers/Recovery.antt =====
-- `RedisRecoveryConsumerService` of reporting-api/app/consumers/redis_recovery.py: how an entry of
-- the stream is processed, a batch of entries, and the grace period.
pub mod Acknowledge
use ntu_cloud_native.Prelude.Decimal.{below_zero, natural, Integer}
use ntu_cloud_native.Prelude.{
  ℕ, suc, ◌+◌, ◌-◌, ◌*◌, ◌/◌, ◌≤◌, min, String, Bool, true, false, not, ◌&&◌, Option, none, some,
  List, [], ◌∷◌, ◌≡◌, contains, if◌then◌else◌, ltb, leb, string_eq, get_or,
}
use ntu_cloud_native.Prelude.Dict.{Dict, lookup}
use ntu_cloud_native.Prelude.Text.{split, is_empty}
use Prim.Native.String.{◌++◌ as ◌<>◌}
use ntu_cloud_native.Result.{Result, ok, err, Error, value_error, ◌>>=◌, ◌>>◌, guard}
use ntu_cloud_native.Ingest.Parse.{Payload, Value, text, Runtime, has_required_fields, str}
use ntu_cloud_native.Consumers.Base.{
  EventStore, Status, count_failure, count_saved, Reachable, save_now,
}

-- The settings of the recovery, with the grace period in milliseconds.
pub record RecoverySettings : Type 0 where
  pub redis_persisted_marker_prefix : String
  pub grace : ℕ

-- An entry of the stream: its id, `<ms>-<seq>`, and its fields, which Redis returns as texts.
pub record Entry : Type 0 where
  pub message_id : String
  pub fields : Payload

-- What the processing of entries changes: the counters and the store.
pub record Recovering (S : EventStore) : Type 0 where
  pub status : Status
  pub store : S.State

-- `_entry_age_seconds` at the time `now`, in milliseconds; `none` is the age of an id that cannot
-- be parsed, infinity.
elapsed : ℕ → Integer → ℕ
elapsed now (natural created) = now - created
elapsed now (below_zero n) = now + suc n

first_part : List String → String
first_part [] = ""
first_part (p ∷ ps) = p

unfoldable pub entry_age : Runtime → ℕ → String → Option ℕ
unfolding first_part split elapsed
entry_age rt now message_id = elim (rt.parse_int (first_part (split b'-' message_id))) [
  | none ↦ none
  | some created ↦ some (elapsed now created)
]

-- `_await_grace`: how long the entry is waited for, unless a shutdown ends the wait.
abbrev wait_for : ℕ → Option ℕ → ℕ
wait_for grace none = 0
wait_for grace (some age) = min (grace - age) grace

unfoldable pub await_grace : Runtime → RecoverySettings → ℕ → String → ℕ
unfolding entry_age
await_grace rt cfg now message_id = wait_for cfg.grace (entry_age rt now message_id)

-- `_payload_from_stream_fields`
unfoldable pub payload_from_stream_fields : Payload → Result Payload
unfolding has_required_fields
payload_from_stream_fields fields = do guard (has_required_fields fields) value_error; ok fields

-- `str(fields.get("requestId", ""))` if there are fields, else the empty text.
unfoldable pub request_id_of : Runtime → Payload → String
unfolding str
request_id_of rt fields = str rt (get_or (lookup "requestId" fields) (text ""))

module _ (S : EventStore) (rt : Runtime) (cfg : RecoverySettings) where
  -- `_already_persisted`: a lookup that fails is answered with False.
  abbrev pub already_persisted : Reachable → List String → String → Bool
  already_persisted up markers request_id =
      up.redis && contains markers (cfg.redis_persisted_marker_prefix <> request_id)

  record_recovery : Recovering S → Result (Bool × S.State) → Bool × Recovering S
  record_recovery r (ok (inserted, s)) =
      (true, record { status = count_saved inserted r.status; store = s })
  record_recovery r (err e) = (false, record r { status = count_failure e r.status })

  -- `_handle_message`
  recover_payload : Reachable → Recovering S → Result Payload → Bool × Recovering S
  unfolding record_recovery
  recover_payload up r (ok p) = record_recovery r (save_now S up p r.store)
  recover_payload up r (err e) = (true, record r { status = count_failure e r.status })

  -- `_process_entry` after the grace period: whether the entry may be acknowledged.
  unfoldable pub process_entry :
      Reachable → List String → Entry → Recovering S → Bool × Recovering S
  unfolding recover_payload
  process_entry up markers e r =
      let request_id = request_id_of rt e.fields in
      if not (is_empty request_id) && already_persisted up markers request_id
      then (true, r)
      else recover_payload up r (payload_from_stream_fields e.fields)

  -- The loops of `_read_and_process` over the entries that were read, each with what answers while
  -- it is processed and the markers in Redis then; the result lists the entries acknowledged.
  unfoldable pub process_entries :
      List (Entry × Reachable × List String) → Recovering S → List Entry × Recovering S
  unfolding process_entry
  process_entries [] r = ([], r)
  process_entries ((e, up, markers) ∷ rest) r =
      let (should_ack, next) = process_entry up markers e r in
      let (acked, last) = process_entries rest next in
      if should_ack then (e ∷ acked, last) else (acked, last)
