-- ===== src/Base/Int.antt =====
-- Signed integers, two's complement and the bytes of a machine word.
use Prim.Native.Nat.{ℕ, ◌+◌, ◌-◌, ◌*◌, ◌/◌, ◌%◌, ◌^◌, ◌<◌}
use native.Mathlib.Omega.{arith}
use mathlib.Core.Path.{◌≡◌}
use mathlib.Core.List.{[], ◌∷◌}
use beet_esp.Base.Num.{ltb, if◌then◌else◌}
use beet_esp.Base.Slice.{Bytes}

-- `negsuc n` is -(n + 1).
pub data ℤ : Type 0 where
  pos : ℕ → ℤ
  negsuc : ℕ → ℤ

-- The `i16` with the given 16 bits.
unfoldable pub i16_from_bits : ℕ → ℤ
i16_from_bits w = if ltb w (2 ^ 15) then pos w else negsuc (2 ^ 16 - w - 1)

-- `u16::from_le_bytes` and `u32::from_le_bytes`.
abbrev pub le_word16 : ℕ → ℕ → ℕ
le_word16 a b = a + b * 2 ^ 8

abbrev pub le_word32 : ℕ → ℕ → ℕ → ℕ → ℕ
le_word32 a b c d = a + b * 2 ^ 8 + c * 2 ^ 16 + d * 2 ^ 24

-- `u16::from_be_bytes` and `u32::from_be_bytes`.
abbrev pub be_word16 : ℕ → ℕ → ℕ
be_word16 a b = a * 2 ^ 8 + b

abbrev pub be_word32 : ℕ → ℕ → ℕ → ℕ → ℕ
be_word32 a b c d = a * 2 ^ 24 + b * 2 ^ 16 + c * 2 ^ 8 + d

-- `u32::to_le_bytes`, and `f32::to_le_bytes` on the bits of the float.
abbrev pub le_bytes32 : ℕ → Bytes
le_bytes32 w = w % 2 ^ 8 ∷ w / 2 ^ 8 % 2 ^ 8 ∷ w / 2 ^ 16 % 2 ^ 8 ∷ w / 2 ^ 24 % 2 ^ 8 ∷ []

pub le_word32-le_bytes32 :
    (w : ℕ)
    → w < 2 ^ 32
    → le_word32 (w % 2 ^ 8) (w / 2 ^ 8 % 2 ^ 8) (w / 2 ^ 16 % 2 ^ 8) (w / 2 ^ 24 % 2 ^ 8) ≡ w
le_word32-le_bytes32 w h = omega arith
