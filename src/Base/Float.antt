-- ===== src/Base/Float.antt =====
-- `f32` as its 32 bits (IEEE 754 binary32): the few operations that the modelled code makes itself.
use Prim.Native.Nat.{ℕ, zero, suc, ◌+◌, ◌-◌, ◌*◌, ◌/◌, ◌%◌, ◌^◌}
use mathlib.Core.Bool.{Bool, ◌&&◌}
use beet_esp.Base.Num.{ltb, leb, ◌==◌, if◌then◌else◌}
use beet_esp.Base.Int.{ℤ, pos, negsuc}

abbrev pub sign_bit : ℕ
sign_bit = 2 ^ 31

-- The magnitude's bits, in the order of the magnitudes; above those of infinity stand the NaNs.
abbrev pub magnitude : ℕ → ℕ
magnitude x = x % 2 ^ 31

abbrev pub infinity : ℕ
infinity = 0x7f80_0000

-- `x < 0.0` and `x > 0.0`, which are false of a NaN and of both zeros.
abbrev pub lt_zero : ℕ → Bool
lt_zero x = leb sign_bit x && (ltb 0 (magnitude x) && leb (magnitude x) infinity)

abbrev pub gt_zero : ℕ → Bool
gt_zero x = ltb x sign_bit && (ltb 0 (magnitude x) && leb (magnitude x) infinity)

-- `-x`.
abbrev pub neg : ℕ → ℕ
neg x = (x + sign_bit) % 2 ^ 32

-- The place of the highest bit of a number below `2 ^ fuel`.
highest_bit : ℕ → ℕ → ℕ
highest_bit zero n = 0
highest_bit (suc fuel) n = let up = highest_bit fuel (n / 2) in if ltb n 2 then 0 else up + 1

-- A whole number below `2 ^ 24` is a float exactly: the exponent, then the bits below the highest.
f32_of_nat : ℕ → ℕ
unfolding highest_bit
f32_of_nat n =
    let e = highest_bit 24 n in
    if n == 0 then 0 else (127 + e) * 2 ^ 23 + (n * 2 ^ (23 - e) - 2 ^ 23)

-- `value as f32` of an `i16`.
unfoldable pub f32_of_i16 : ℤ → ℕ
unfolding f32_of_nat
f32_of_i16 (pos n) = f32_of_nat n
f32_of_i16 (negsuc n) = sign_bit + f32_of_nat (n + 1)
