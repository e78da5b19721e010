-- ===== src/Cover/Garage.antt =====
-- `CustomDpGarage` of hahomematic/model/custom/cover.py. The texts of the states and commands
-- are constructors; every other state is `position_unknown`.
use hahomematic.Base.{
  ℕ, ◌≤◌, ◌≡◌, Bool, true, false, not, ◌&&◌, ◌||◌, Option, none, some, List, [], ◌∷◌, ◌++◌, ltb,
  leb, if◌then◌else◌, arith,
}
use hahomematic.Base.Double.{ℤ, pos, negsuc, int_eq}

pub data GarageDoorState : Type 0 where
  closed opened ventilation_position position_unknown : GarageDoorState

pub data GarageDoorCommand : Type 0 where
  close_door nop open_door partial_open stop_door : GarageDoorCommand

-- `_CoverPosition`
pub data CoverPosition : Type 0 where
  at_open at_vent at_closed : CoverPosition

pub record Garage : Type 0 where
  pub door_state : Option GarageDoorState
  pub section : Option ℤ
  pub state_uncertain : Bool

abbrev pub position_value : CoverPosition → ℤ
position_value at_open = pos 100
position_value at_vent = pos 10
position_value at_closed = pos 0

abbrev state_position : GarageDoorState → Option CoverPosition
state_position opened = some at_open
state_position ventilation_position = some at_vent
state_position closed = some at_closed
state_position position_unknown = none

-- `current_position`
unfoldable pub door_position : Garage → Option CoverPosition
door_position g = elim g.door_state [ none ↦ none | some s ↦ state_position s ]

abbrev pub same_position : CoverPosition → CoverPosition → Bool
same_position at_open at_open = true
same_position at_vent at_vent = true
same_position at_closed at_closed = true
same_position _ _ = false

-- `is_state_change` with the one argument that stands for the position
unfoldable pub is_door_change : CoverPosition → Garage → Bool
is_door_change wanted g =
    not (elim (door_position g) [ none ↦ false | some p ↦ same_position p wanted ])
    || g.state_uncertain

abbrev pub command_of : CoverPosition → GarageDoorCommand
command_of at_open = open_door
command_of at_vent = partial_open
command_of at_closed = close_door

-- `open`, `vent` and `close`
unfoldable pub move_door : CoverPosition → Garage → List GarageDoorCommand
unfolding is_door_change
move_door wanted g = if is_door_change wanted g then command_of wanted ∷ [] else []

-- `is_opening` and `is_closing`, with the activities 2 and 5
unfoldable pub has_activity : ℕ → Garage → Option Bool
unfolding int_eq
has_activity activity g = elim g.section [ none ↦ none | some s ↦ some (int_eq s (pos activity)) ]

-- The three tests of `set_position`, which follow each other without an `else`.
unfoldable pub set_door_position : Option ℤ → Garage → List GarageDoorCommand
set_door_position none g = []
set_door_position (some (negsuc n)) g = []
set_door_position (some (pos p)) g =
    (if ltb 50 p && leb p 100 then move_door at_open g else [])
    ++ ((if ltb 10 p && leb p 50 then move_door at_vent g else [])
        ++ (if leb p 10 then move_door at_closed g else []))

unfoldable pub stop_garage : Garage → List GarageDoorCommand
stop_garage g = stop_door ∷ []

-- The position that the door reaches with a command.
abbrev pub reached : List GarageDoorCommand → Garage → Garage
reached [] g = g
reached (open_door ∷ rest) g = reached rest (record g { door_state = some opened })
reached (close_door ∷ rest) g = reached rest (record g { door_state = some closed })
reached (partial_open ∷ rest) g = reached rest (record g { door_state = some ventilation_position })
reached (_ ∷ rest) g = reached rest g

-- The position of the door that stands for a position in percent.
abbrev pub nearest : ℕ → CoverPosition
nearest p = if leb p 10 then at_closed else if leb p 50 then at_vent else at_open

-- A garage door that is set to a position from 0 to 100 and does what it is sent, if anything,
-- is closed for positions up to 10, at the vent position up to 50 and open above.
pub set_door_position-reached :
    (p : ℕ) (g : Garage)
    → p ≤ 100
    → door_position (reached (set_door_position (some (pos p)) g) g) ≡ some (nearest p)
unfolding set_door_position move_door is_door_change door_position
set_door_position-reached p g h = ground arith

-- A garage door in a certain state that does what it is sent for a position from 0 to 100 is sent
-- nothing when it is set to the same position again.
pub set_door_position-twice :
    (p : ℕ) (g : Garage)
    → p ≤ 100
    → g.state_uncertain ≡ false
    → set_door_position (some (pos p)) (reached (set_door_position (some (pos p)) g) g) ≡ []
unfolding set_door_position move_door is_door_change door_position
set_door_position-twice p g h u = ground arith
