-- ===== src/Clock/Age.antt =====
-- What `changed_within_seconds` of hahomematic/support.py says of an age.
use hahomematic.Base.{ℕ, ◌+◌, ◌-◌, ◌*◌, ◌/◌, ◌≤◌, ◌<◌, ◌≡◌, ◌≢◌, ◌↔◌, true, false, arith, eqb_iff}
use hahomematic.Clock.{second, day, init_datetime, changed_within_seconds}

-- For a change that lies less than a day back, the test compares its age in whole seconds.
pub changed_within_day :
    (now last max_age : ℕ)
    → last ≤ now
    → now - last < day * second
    → last ≢ init_datetime
    → (changed_within_seconds now last max_age ≡ true) ↔ ((now - last) / second < max_age)
unfolding changed_within_seconds
changed_within_day now last max_age past young used = ground (arith, eqb_iff last init_datetime)

-- A change that lies any number of whole days and a short rest back also counts as recent.
pub changed_days_ago :
    (last max_age days rest : ℕ)
    → rest < second * max_age
    → max_age ≤ day
    → last ≢ init_datetime
    → changed_within_seconds (last + days * (day * second) + rest) last max_age ≡ true
unfolding changed_within_seconds
changed_days_ago last max_age days rest short fits used = ground (arith, eqb_iff last init_datetime)

-- From the maximal age on, and up to a day, a change is not recent.
pub changed_expired :
    (now last max_age : ℕ)
    → last + max_age * second ≤ now
    → now < last + day * second
    → last ≢ init_datetime
    → changed_within_seconds now last max_age ≡ false
unfolding changed_within_seconds
changed_expired now last max_age old young used = ground (arith, eqb_iff last init_datetime)
