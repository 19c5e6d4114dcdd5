-- ===== src/Examples/Scores.antt =====
-- A score and its parts per million.
use texo.Base.{◌≡◌, refl, false, arith, ◌*◌, ◌^◌, ◌-◌}
use texo.Scores.{F32, ppm_scale, mantissa, unit_interval_to_ppm}
use texo.Scores.Nearest.{IsNearest, unit_interval_to_ppm-IsNearest}

-- 0.7 in 32 bits.
abbrev seven_tenths : F32
seven_tenths = record { sign = false; exponent = 126; fraction = 3355443 }

seven_tenths_ppm : unit_interval_to_ppm seven_tenths ≡ 700000
unfolding unit_interval_to_ppm
seven_tenths_ppm = refl

unit_interval_to_ppm-IsNearest_example :
    IsNearest
      (unit_interval_to_ppm seven_tenths)
      (mantissa seven_tenths * ppm_scale)
      (2 ^ (150 - 126))
unit_interval_to_ppm-IsNearest_example =
    unit_interval_to_ppm-IsNearest seven_tenths refl (omega arith) (omega arith) (omega arith)
