-- ===== src/Tests/Lights.antt =====
-- The theorems about colours and times of lights at concrete values.
use hahomematic.Base.{◌≡◌, refl, arith}
use hahomematic.Base.Double.{pos, Double, of_int, trunc}
use hahomematic.Light.Color.{convert_color, fixed_color}
use hahomematic.Light.Color.Nearest.{NearColor, convert_color-near}

unfoldable hue : Double
unfolding of_int
hue = of_int (pos 100)

unfoldable saturation : Double
unfolding of_int
saturation = of_int (pos 80)

hue-trunc : trunc hue ≡ pos 100
unfolding trunc hue
hue-trunc = refl

saturation-trunc : trunc saturation ≡ pos 80
unfolding trunc saturation
saturation-trunc = refl

convert_color-near_example : NearColor 100 (fixed_color (convert_color (hue, saturation)))
convert_color-near_example =
    convert_color-near hue saturation 100 80 hue-trunc saturation-trunc (omega arith) (omega arith)

-- 36000 seconds
unfoldable ten_hours : Double
unfolding of_int
ten_hours = of_int (pos 36000)
