-- ===== src/CommandCache/Aging.antt =====
-- How `CommandCache` of hahomematic/caches/dynamic.py treats old commands.
use hahomematic.Base.{ℕ, ◌+◌, ◌*◌, ◌≤◌, ◌<◌, ◌≡◌, ◌≢◌, some, none, arith}
use hahomematic.Base.Dict.{lookup-erase}
use hahomematic.Base.Value.{Value}
use hahomematic.Clock.{second, day, init_datetime}
use hahomematic.Clock.Age.{changed_expired, changed_days_ago}
use hahomematic.Const.{DpKey, dp_key_eq, dp_key_beq_iff}
use hahomematic.CommandCache.{CommandCache, Sent, remove_last_value_send, get_last_value_send}
use hahomematic.CommandCache.Commands.{sent_value, get-fresh}

-- A command that is old enough at both readings of the clock, and less than a day old, is not
-- returned, and it is off the cache afterwards.
pub get-expired :
    (key : DpKey) (max_age : ℕ) (now : ℕ → ℕ) (c : CommandCache) (sent : Sent)
    → sent_value key c ≡ some sent
    → ((i : ℕ) → (sent.send_dt + max_age * second ≤ now i) × (now i < sent.send_dt + day * second))
    → sent.send_dt ≢ init_datetime
    → ((get_last_value_send key max_age now c).0 ≡ Value.null)
      × (sent_value key (get_last_value_send key max_age now c).1 ≡ none)
unfolding get_last_value_send remove_last_value_send
get-expired key max_age now c sent h old used = ground (
  arith,
  changed_expired (now 0) sent.send_dt max_age (old 0).0 (old 0).1 used,
  changed_expired (now 1) sent.send_dt max_age (old 1).0 (old 1).1 used,
  lookup-erase key key c.last_send_command,
  dp_key_beq_iff key key,
)

-- A command that was sent any number of whole days and less than the maximal age ago is returned as
-- unconfirmed, as if it had just been sent.
pub get-days_ago :
    (key : DpKey) (max_age days rest : ℕ) (now : ℕ → ℕ) (c : CommandCache) (sent : Sent)
    → sent_value key c ≡ some sent
    → rest < second * max_age
    → max_age ≤ day
    → sent.send_dt ≢ init_datetime
    → now 0 ≡ sent.send_dt + days * (day * second) + rest
    → get_last_value_send key max_age now c ≡ (sent.value, c)
get-days_ago key max_age days rest now c sent h short fits used at =
    get-fresh key max_age now c sent h
      (rw at (changed_days_ago sent.send_dt max_age days rest short fits used))
