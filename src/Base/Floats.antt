-- ===== src/Base/Floats.antt =====
-- Go floats as exact numbers. A finite float is a fraction, and comparing floats is comparing the
-- numbers that they stand for; a comparison with NaN is false. Rounding is not modelled.
use Prim.Native.Nat.{ℕ, ◌+◌}
use mathlib.Core.Bool.{Bool, true, false}
use lynx_apollo.Base.Tests.{leb}
use lynx_apollo.Base.Int.{ℤ, pos_part, neg_part, ltb_ℤ, scale}

-- `frac n d` is n / d, for 0 < d.
pub data Float : Type 0 where
  nan neg_inf inf : Float
  frac : ℤ → ℕ → Float

-- a < b
abbrev pub ltb_float : Float → Float → Bool
ltb_float nan b = false
ltb_float a nan = false
ltb_float neg_inf neg_inf = false
ltb_float neg_inf b = true
ltb_float a neg_inf = false
ltb_float inf b = false
ltb_float a inf = true
ltb_float (frac n d) (frac m e) = ltb_ℤ (scale e n) (scale d m)

-- a <= b
abbrev pub leb_float : Float → Float → Bool
leb_float nan b = false
leb_float a nan = false
leb_float neg_inf b = true
leb_float a neg_inf = false
leb_float a inf = true
leb_float inf b = false
leb_float (frac n d) (frac m e) =
    leb (pos_part (scale e n) + neg_part (scale d m)) (pos_part (scale d m) + neg_part (scale e n))
