-- ===== src/Ucpack/Frame.antt =====
-- `Frame` and the constants of `src/alvik/ucpack.rs`.
use beet_esp.Base.{ℕ, ◌+◌, ◌≤◌, ◌<◌, ◌≡◌, Option, some, arith}
use beet_esp.Base.{Bytes, length, slice, get_elem?, get_or, ◌>>=◌, ℤ, i16_from_bits}
use beet_esp.Base.{le_word16, le_word32, get_elem?-eq-get_or}

-- `START`, 'A'.
abbrev pub start_byte : ℕ
start_byte = 0x41

-- `END`, '#'.
abbrev pub end_byte : ℕ
end_byte = 0x23

abbrev pub payload_max : ℕ
payload_max = 24

abbrev pub frame_max : ℕ
frame_max = payload_max + 5

-- The payload is an array of `payload_max` bytes, of which the first `len` are meant.
pub record Frame : Type 0 where
  pub code : ℕ
  pub payload : Bytes
  pub len : ℕ

pub record IsFrame (f : Frame) : Type 0 where
  pub full : length f.payload ≡ payload_max
  pub within : f.len ≤ payload_max

-- The accessors. A `none` is a panic: an index out of range.
unfoldable pub payload_bytes : Frame → Option Bytes
payload_bytes f = slice f.payload 0 f.len

unfoldable pub u8_at : Frame → ℕ → Option ℕ
u8_at f offset = get_elem? f.payload offset

unfoldable pub i16_at : Frame → ℕ → Option ℤ
i16_at f offset = do
  a ← get_elem? f.payload offset
  b ← get_elem? f.payload (offset + 1)
  some (i16_from_bits (le_word16 a b))

-- A float is represented by its 32 bits.
unfoldable pub f32_at : Frame → ℕ → Option ℕ
f32_at f offset = do
  a ← get_elem? f.payload offset
  b ← get_elem? f.payload (offset + 1)
  c ← get_elem? f.payload (offset + 2)
  d ← get_elem? f.payload (offset + 3)
  some (le_word32 a b c d)

-- What the accessors return where they are in range.
abbrev pub byte_of : Frame → ℕ → ℕ
byte_of f i = get_or f.payload i 0

abbrev pub i16_of : Frame → ℕ → ℤ
i16_of f i = i16_from_bits (le_word16 (byte_of f i) (byte_of f (i + 1)))

abbrev pub f32_of : Frame → ℕ → ℕ
f32_of f i = le_word32 (byte_of f i) (byte_of f (i + 1)) (byte_of f (i + 2)) (byte_of f (i + 3))

module _ (f : Frame) (ok : IsFrame f) (i : ℕ) where
  pub u8_at_lem : i < payload_max → u8_at f i ≡ some (byte_of f i)
  unfolding u8_at
  u8_at_lem h = ground (arith, ok.full, get_elem?-eq-get_or f.payload i 0)

  pub i16_at_lem : i + 1 < payload_max → i16_at f i ≡ some (i16_of f i)
  unfolding i16_at
  i16_at_lem h =
      ground
        (arith, ok.full, get_elem?-eq-get_or f.payload i 0, get_elem?-eq-get_or f.payload (i + 1) 0)

  pub f32_at_lem : i + 3 < payload_max → f32_at f i ≡ some (f32_of f i)
  unfolding f32_at
  f32_at_lem h = ground (
    arith,
    ok.full,
    get_elem?-eq-get_or f.payload i 0,
    get_elem?-eq-get_or f.payload (i + 1) 0,
    get_elem?-eq-get_or f.payload (i + 2) 0,
    get_elem?-eq-get_or f.payload (i + 3) 0,
  )
