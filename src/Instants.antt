-- ===== src/Instants.antt =====
-- What the program uses of Python's datetime: an instant is the number of microseconds since the first
-- day of year 1, so that every instant that a datetime can be is a natural number.
use ledger_loop.Prelude.{
  ℕ, suc, ◌+◌, ◌-◌, ◌*◌, ◌/◌, Option, none, some, leb, if◌then◌else◌, ℤ, pos, negsuc,
}

-- Seconds from the first day of year 1 to 1970.
abbrev pub unix_epoch : ℕ
unix_epoch = 62135596800

-- The last second of year 9999, from 1970.
abbrev pub last_second : ℕ
last_second = 253402300799

-- `datetime.fromtimestamp(seconds, tz=UTC)`; none where it raises.
unfoldable pub fromtimestamp : ℤ → Option ℕ
fromtimestamp (pos n) = if leb n last_second then some ((unix_epoch + n) * 1000000) else none
fromtimestamp (negsuc n) =
    if leb (suc n) unix_epoch then some ((unix_epoch - suc n) * 1000000) else none

-- `int(instant.timestamp())` of an instant from 1970 on; the float is exact enough below 2^33 seconds.
abbrev pub unix_seconds : ℕ → ℕ
unix_seconds instant = instant / 1000000 - unix_epoch
