-- ===== src/Light/Color/Times.antt =====
-- The unit of a time that a light holds (hahomematic/model/custom/light.py).
use hahomematic.Base.{ℕ, Bool, List, [], ◌∷◌}
use hahomematic.Base.Double.{Double, pos, exact, double_eq, double_le}
use hahomematic.Light.Color.{
  ColorCommand, send_color, send_behaviour, send_color_value, send_time, send_time_unit,
}

-- the unit and the time that a light holds after the commands that it gets
abbrev pub held : List ColorCommand → ℕ × Double → ℕ × Double
held [] l = l
held (send_time_unit u ∷ ks) (unit, time) = held ks (u, time)
held (send_time t ∷ ks) (unit, time) = held ks (unit, t)
held (send_color c ∷ ks) l = held ks l
held (send_behaviour b ∷ ks) l = held ks l
held (send_color_value v ∷ ks) l = held ks l

-- whether a time is sent in seconds; 111600 stands for no limit and is sent without a unit
abbrev pub is_in_seconds : Double → Bool
is_in_seconds x = double_le x (exact (pos 16343))

abbrev pub is_unlimited : Double → Bool
is_unlimited x = double_eq x (exact (pos 111600))
