-- ===== src/Lock.antt =====
-- The three locks of hahomematic/model/custom/lock.py. The values of the data points that a lock reads
-- are the fields of its state; a method returns the values that it sends.
use hahomematic.Base.{
  ◌≡◌, arith, Bool, true, false, not, ◌==◌, list_eq, nat_eq, Option, none, some, List, [], ◌∷◌,
}
use hahomematic.Base.Text.{Text, codes}

pub data LockClass : Type 0 where
  ip_lock button_lock rf_lock : LockClass

-- `state` is that of the switch of a button lock or of a classic lock.
pub record Lock : Type 0 where
  pub class : LockClass
  pub lock_state : Option Text
  pub state : Option Bool
  pub direction : Option Text
  pub error : Option Text

pub data Command : Type 0 where
  send_target : Text → Command
  send_state send_open : Bool → Command

abbrev pub is_true : Option Bool → Bool
is_true (some b) = b
is_true none = false

abbrev pub is_text : Text → Option Text → Bool
is_text t none = false
is_text t (some u) = u == t

-- A classic lock is locked unless its switch is on.
unfoldable pub is_locked : Lock → Bool
is_locked l = elim l.class [
  | ip_lock ↦ is_text (codes "LOCKED") l.lock_state
  | button_lock ↦ is_true l.state
  | rf_lock ↦ not (is_true l.state)
]

abbrev pub moves : Text → Option Text → Option Bool
moves activity none = none
moves activity (some d) = some (d == activity)

unfoldable pub is_locking : Lock → Option Bool
is_locking l = elim l.class [
  | ip_lock ↦ moves (codes "DOWN") l.direction
  | button_lock ↦ none
  | rf_lock ↦ moves (codes "DOWN") l.direction
]

unfoldable pub is_unlocking : Lock → Option Bool
is_unlocking l = elim l.class [
  | ip_lock ↦ moves (codes "UP") l.direction
  | button_lock ↦ none
  | rf_lock ↦ moves (codes "UP") l.direction
]

unfoldable pub is_jammed : Lock → Bool
is_jammed l = elim l.class [
  | ip_lock ↦ false
  | button_lock ↦ false
  | rf_lock ↦ elim l.error [ none ↦ false | some e ↦ not (e == codes "NO_ERROR") ]
]

unfoldable pub supports_open : LockClass → Bool
supports_open ip_lock = true
supports_open button_lock = false
supports_open rf_lock = true

unfoldable pub lock : LockClass → List Command
lock ip_lock = send_target (codes "LOCKED") ∷ []
lock button_lock = send_state true ∷ []
lock rf_lock = send_state false ∷ []

unfoldable pub unlock : LockClass → List Command
unlock ip_lock = send_target (codes "UNLOCKED") ∷ []
unlock button_lock = send_state false ∷ []
unlock rf_lock = send_state true ∷ []

unfoldable pub open_lock : LockClass → List Command
open_lock ip_lock = send_target (codes "OPEN") ∷ []
open_lock button_lock = []
open_lock rf_lock = send_open true ∷ []

-- The device reports the state that it was sent: the target becomes the state of the lock.
unfoldable pub report : List Command → Lock → Lock
report [] l = l
report (send_target t ∷ rest) l = report rest (record l { lock_state = some t })
report (send_state b ∷ rest) l = report rest (record l { state = some b })
report (send_open b ∷ rest) l = report rest l

-- Every lock is locked after it was locked, and unlocked after it was unlocked, once the device has
-- reported what it was sent; what is sent to open a lock that supports it never locks it.
pub is_locked-report :
    (l : Lock)
    → (is_locked (report (lock l.class) l) ≡ true)
      × (is_locked (report (unlock l.class) l) ≡ false)
      × (is_locked l ≡ false → is_locked (report (open_lock l.class) l) ≡ false)
unfolding is_locked report lock unlock open_lock
is_locked-report l = ground arith
