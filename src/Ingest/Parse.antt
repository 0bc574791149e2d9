-- ===== src/Ingest/Parse.antt =====
-- The payload of an access event: `parse_access_event`, `parse_event_timestamp` and the reads
-- `str(payload[key])`, `int(payload[key])`, `payload.get("remark")`.
use ntu_cloud_native.Prelude.Decimal.{natural, Integer}
use ntu_cloud_native.Prelude.{
  ℕ, String, Bool, true, false, Option, none, some, List, [], ◌∷◌, all, if◌then◌else◌, string_eq,
}
use ntu_cloud_native.Prelude.Dict.{Dict, lookup, has_key}
use ntu_cloud_native.Prelude.Text.{is_empty, replace}
use ntu_cloud_native.Result.{
  Result, ok, err, data_error, key_error, value_error, type_error, ◌>>=◌, ◌>>◌, guard, or_raise,
}
use ntu_cloud_native.Timestamp.{DateTime, Timestamp, local_datetime}

-- The JSON values that an event holds. Fractional numbers, lists and nested objects are left out: no
-- field of an event has one.
pub data Value : Type 0 where
  text : String → Value
  number : Integer → Value
  boolean : Bool → Value
  null : Value

abbrev pub Payload : Type 0
Payload = Dict String Value

-- What the code takes from Python's library. `none` is an exception.
pub record Runtime : Type 0 where
  -- `json.loads(raw.decode("utf-8"))`, when it is an object
  pub loads : List ℕ → Option Payload
  -- `str(n)` and `int(text)`
  pub decimal : Integer → String
  pub parse_int : String → Option Integer
  pub fromisoformat : String → Option DateTime
  -- What the driver stores in a column of type text for a number or a truth value.
  pub stored_text : Value → Option String

abbrev pub required_event_fields : List String
required_event_fields =
    "requestId" ∷ "employeeId" ∷ "gateId" ∷ "direction" ∷ "decision" ∷ "reason" ∷ "previousState"
    ∷ "currentState" ∷ "latencyMs" ∷ "timestamp" ∷ []

unfoldable pub has_required_fields : Payload → Bool
has_required_fields payload = all (λ field. has_key field payload) required_event_fields

unfoldable pub parse_access_event : Runtime → List ℕ → Result Payload
unfolding has_required_fields
parse_access_event rt raw = do
  payload ← or_raise (rt.loads raw) value_error
  guard (has_required_fields payload) value_error
  ok payload

unfoldable pub parse_event_timestamp : Runtime → String → Result Timestamp
unfolding local_datetime replace
parse_event_timestamp rt value = do
  parsed ← or_raise (rt.fromisoformat (replace b'Z' "+00:00" value)) value_error
  local_datetime parsed

unfoldable pub parse_optional_datetime : Runtime → Option String → Result (Option Timestamp)
unfolding parse_event_timestamp
parse_optional_datetime rt none = ok none
parse_optional_datetime rt (some value) =
    if is_empty value then ok none else (do t ← parse_event_timestamp rt value; ok (some t))

-- `str(value)`
unfoldable pub str : Runtime → Value → String
str rt (text s) = s
str rt (number n) = rt.decimal n
str rt (boolean true) = "True"
str rt (boolean false) = "False"
str rt null = "None"

-- `int(value)`
int : Runtime → Value → Result Integer
int rt (text s) = or_raise (rt.parse_int s) value_error
int rt (number n) = ok n
int rt (boolean true) = ok (natural 1)
int rt (boolean false) = ok (natural 0)
int rt null = err type_error

-- `str(payload[key])`
unfoldable pub text_at : Runtime → Payload → String → Result String
unfolding str
text_at rt payload key = do value ← or_raise (lookup key payload) key_error; ok (str rt value)

-- `int(payload[key])`
unfoldable pub number_at : Runtime → Payload → String → Result Integer
unfolding int
number_at rt payload key = do value ← or_raise (lookup key payload) key_error; int rt value

-- A value in a nullable column of type text.
in_text_column : Runtime → Value → Result (Option String)
in_text_column rt (text s) = ok (some s)
in_text_column rt null = ok none
in_text_column rt (number n) = do s ← or_raise (rt.stored_text (number n)) data_error; ok (some s)
in_text_column rt (boolean b) = do s ← or_raise (rt.stored_text (boolean b)) data_error; ok (some s)

-- `payload.get("remark")`, as its column takes it.
unfoldable pub remark_at : Runtime → Payload → Result (Option String)
unfolding in_text_column
remark_at rt payload = elim (lookup "remark" payload) [
  | none ↦ ok none
  | some value ↦ in_text_column rt value
]
