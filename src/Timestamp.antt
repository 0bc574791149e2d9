-- ===== src/Timestamp.antt =====
-- Points in time of reporting-api/app/repositories.py. A `Timestamp` is an aware datetime in the
-- zone Asia/Taipei, by the microseconds of its wall clock since 0001-01-01T00:00: what
-- `parse_event_timestamp` and `_local_datetime` return and what a session in that zone reads from
-- the database. The zone's offset is UTC+08:00, as it has been since October 1979.
use ntu_cloud_native.Result.{overflow_error, err, ok, Result}
use ntu_cloud_native.Prelude.{ltb, ◌&&◌, leb, if◌then◌else◌, ℕ, ◌+◌, ◌-◌, ◌*◌, ◌/◌, ◌%◌}

abbrev pub Timestamp : Type 0
Timestamp = ℕ

-- Microseconds.
abbrev pub second : ℕ
second = 1_000_000

abbrev pub minute : ℕ
minute = 60_000_000

abbrev pub hour : ℕ
hour = 3_600_000_000

abbrev pub day : ℕ
day = 86_400_000_000

-- A parsed datetime: without a zone, or with the UTC offset of its zone, to which 24 hours are
-- added so that no offset is negative.
pub data DateTime : Type 0 where
  naive : ℕ → DateTime
  aware : (wall offset : ℕ) → DateTime

-- The offset of Asia/Taipei, so shifted.
abbrev pub taipei_offset : ℕ
taipei_offset = 32 * hour

-- The end of the year 9999: the 3,652,059 days that Python's calendar has.
abbrev pub end_of_time : ℕ
end_of_time = 3_652_059 * day

-- `value.replace(tzinfo=TAIPEI)` without a zone; with one `value.astimezone(TAIPEI)`, which raises
-- where the time in UTC lies before the year 1 or the one in Taipei behind the year 9999.
unfoldable pub local_datetime : DateTime → Result Timestamp
local_datetime (naive wall) = ok wall
local_datetime (aware wall offset) =
    if leb offset (wall + day) && ltb (wall + taipei_offset - offset) end_of_time
    then ok (wall + taipei_offset - offset)
    else err overflow_error

-- The date as its count of days, and the time of day in microseconds.
abbrev pub local_date : Timestamp → ℕ
local_date t = t / day

abbrev pub time_of_day : Timestamp → ℕ
time_of_day t = t % day

-- `time(hour, minute)`
abbrev pub clock : ℕ → ℕ → ℕ
clock h m = h * hour + m * minute
