-- ===== src/Clock.antt =====
-- Time as hahomematic/support.py reads it (`changed_within_seconds`, `CacheEntry`). A datetime is
-- the number of microseconds since 0001-01-01; what `datetime.now()` returns is an argument.
pub mod Age
use hahomematic.Base.{ℕ, ◌+◌, ◌-◌, ◌*◌, ◌/◌, ◌%◌, Bool, false, not, arith, leb, ltb, eqb}
use hahomematic.Base.{◌==◌, if◌then◌else◌}

abbrev pub second : ℕ
second = 1000000

abbrev pub day : ℕ
day = 86400

-- const.py: 1970-01-01 00:00:00, which is 719162 days after 0001-01-01
abbrev pub init_datetime : ℕ
init_datetime = 719162 * day * second

-- const.py: `MAX_CACHE_AGE`, in seconds
abbrev pub max_cache_age : ℕ
max_cache_age = 10

-- `(now - last).seconds`: a timedelta keeps days, and seconds in the range of one day; both are
-- floors, also of a negative difference.
unfoldable pub delta_seconds : ℕ → ℕ → ℕ
delta_seconds now last =
    if leb last now
    then (now - last) / second % day
    else (day - (last - now + (second - 1)) / second % day) % day

unfoldable pub changed_within_seconds : ℕ → ℕ → ℕ → Bool
unfolding delta_seconds
changed_within_seconds now last max_age =
    if eqb last init_datetime then false else ltb (delta_seconds now last) max_age
