-- ===== src/Types/Number.antt =====
-- Machine numbers of the definition file, as far as the code looks into them.
use containerlab.Base.{ℕ, ◌%◌, ◌^◌, Bool, false, not, ltb, ◌==◌}

-- A Go int: `negsuc n` is -(n + 1).
pub data ℤ : Type 0 where
  pos : ℕ → ℤ
  negsuc : ℕ → ℤ

-- v > 0
abbrev pub is_positive : ℤ → Bool
is_positive (pos n) = ltb 0 n
is_positive (negsuc n) = false

-- A float64 by its 64-bit pattern. `v != 0` holds but for the patterns of +0 and -0, which differ
-- in the sign bit alone. (It holds of a NaN.)
abbrev pub Float64 : Type 0
Float64 = ℕ

abbrev pub float_ne_zero : Float64 → Bool
float_ne_zero bits = not (bits % 2 ^ 63 == 0)
