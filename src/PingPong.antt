-- ===== src/PingPong.antt =====
-- `PingPongCache` of hahomematic/caches/dynamic.py. A method takes the readings of the clock that
-- it makes, in their order, and returns the new cache with what it fired and logged.
pub mod Valid
pub mod Effects
pub mod Warnings
pub mod Matching
use hahomematic.Base.{
  ℕ, ◌*◌, ◌<◌, Bool, true, false, not, ◌&&◌, List, [], ◌∷◌, ◌++◌, ltb, leb, if◌then◌else◌, nat_eq,
  length, keep, contains, add, remove,
}
use hahomematic.Clock.{delta_seconds}

pub data EventType : Type 0 where
  pending_pong unknown_pong : EventType

-- `_fire_event` and `_LOGGER.warning`
pub data Effect : Type 0 where
  fire : ℕ → Effect
  warn : EventType → Effect

pub record PingPongCache : Type 0 where
  pub allowed_delta : ℕ
  pub ttl : ℕ
  pub pending_pongs : List ℕ
  pub unknown_pongs : List ℕ
  pub pending_pong_logged : Bool
  pub unknown_pong_logged : Bool

abbrev pub Result : Type 0
Result = PingPongCache × List Effect

-- the defaults of config.py
unfoldable pub new : PingPongCache
new = record {
  allowed_delta = 15;
  ttl = 300;
  pending_pongs = [];
  unknown_pongs = [];
  pending_pong_logged = false;
  unknown_pong_logged = false;
}

unfoldable pub is_live : ℕ → ℕ → ℕ → Bool
is_live ttl now pong_ts = leb (delta_seconds now pong_ts) ttl

unfoldable pub cleanup_pending_pongs : ℕ → PingPongCache → PingPongCache
cleanup_pending_pongs now c = record c { pending_pongs = keep (is_live c.ttl now) c.pending_pongs }

unfoldable pub cleanup_unknown_pongs : ℕ → PingPongCache → PingPongCache
cleanup_unknown_pongs now c = record c { unknown_pongs = keep (is_live c.ttl now) c.unknown_pongs }

-- The properties `high_…` and `low_…`, behind their cleanups.
abbrev pub is_high : PingPongCache → List ℕ → Bool
is_high c pongs = ltb c.allowed_delta (length pongs)

abbrev pub is_low : PingPongCache → List ℕ → Bool
is_low c pongs = ltb (2 * length pongs) c.allowed_delta

unfoldable pub clear : PingPongCache → PingPongCache
clear c = record c {
  pending_pongs = [];
  unknown_pongs = [];
  pending_pong_logged = false;
  unknown_pong_logged = false;
}

-- The two last tests of `_check_and_fire_pong_event`.
unfoldable pub report_high : EventType → ℕ → PingPongCache → Result
report_high pending_pong count c =
    if is_high c c.pending_pongs
    then (
      record c { pending_pong_logged = true },
      fire count ∷ (if c.pending_pong_logged then [] else warn pending_pong ∷ []),
    )
    else (c, [])
report_high unknown_pong count c =
    if is_high c c.unknown_pongs
    then (
      record c { unknown_pong_logged = true },
      (if c.unknown_pong_logged then [] else warn unknown_pong ∷ []),
    )
    else (c, [])

-- `_check_and_fire_pong_event`: each test reads its property, with its cleanup, before the type.
unfoldable pub check_and_fire_pong_event : EventType → ℕ → (ℕ → ℕ) → PingPongCache → Result
check_and_fire_pong_event pending_pong count now c =
    let c1 = cleanup_pending_pongs (now 0) c in
    if is_low c1 c1.pending_pongs
    then (record c1 { pending_pong_logged = false }, fire 0 ∷ [])
    else (let c3 = cleanup_pending_pongs (now 2) (cleanup_unknown_pongs (now 1) c1) in
        let (c4, effects) = report_high pending_pong count c3 in
        (cleanup_unknown_pongs (now 3) c4, effects))
check_and_fire_pong_event unknown_pong count now c =
    let c2 = cleanup_unknown_pongs (now 1) (cleanup_pending_pongs (now 0) c) in
    if is_low c2 c2.unknown_pongs
    then (record c2 { unknown_pong_logged = false }, [])
    else report_high unknown_pong count
        (cleanup_unknown_pongs (now 3) (cleanup_pending_pongs (now 2) c2))

unfoldable pub handle_send_ping : ℕ → (ℕ → ℕ) → PingPongCache → Result
handle_send_ping ping_ts now c =
    let c' : PingPongCache = record c { pending_pongs = add ping_ts c.pending_pongs } in
    check_and_fire_pong_event pending_pong (length c'.pending_pongs) now c'

unfoldable pub handle_received_pong : ℕ → (ℕ → ℕ) → PingPongCache → Result
handle_received_pong pong_ts now c =
    if contains pong_ts c.pending_pongs
    then (let c' : PingPongCache = record c { pending_pongs = remove pong_ts c.pending_pongs } in
        check_and_fire_pong_event pending_pong (length c'.pending_pongs) now c')
    else (let c' : PingPongCache = record c { unknown_pongs = add pong_ts c.unknown_pongs } in
        check_and_fire_pong_event unknown_pong (length c'.unknown_pongs) now c')

-- What happens to a cache, with the readings of the clock.
pub data Op : Type 0 where
  send : ℕ → (ℕ → ℕ) → Op
  receive : ℕ → (ℕ → ℕ) → Op
  reset : Op

unfoldable pub apply : Op → PingPongCache → Result
apply (send ts now) c = handle_send_ping ts now c
apply (receive ts now) c = handle_received_pong ts now c
apply reset c = (clear c, [])

unfoldable pub run : List Op → PingPongCache → Result
run [] c = (c, [])
run (op ∷ ops) c =
    let (c1, first) = apply op c in let (c2, rest) = run ops c1 in (c2, first ++ rest)
