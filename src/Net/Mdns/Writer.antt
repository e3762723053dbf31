-- ===== src/Net/Mdns/Writer.antt =====
-- `Writer`, `build_query` and `build_answer` of `src/net/mdns.rs`.
use beet_esp.Base.{ℕ, ◌+◌, ◌/◌, ◌%◌, ◌^◌, ◌||◌, Option, none, some}
use beet_esp.Base.{[], ◌∷◌, Bytes, length, store, ◌>>=◌, ltb, ◌==◌, if◌then◌else◌, bit_or}

abbrev pub type_a : ℕ
type_a = 1

abbrev pub class_in : ℕ
class_in = 1

abbrev pub class_mask : ℕ
class_mask = 0x7fff

-- The bytes of "local".
abbrev pub local_label : Bytes
local_label = b'l' ∷ b'o' ∷ b'c' ∷ b'a' ∷ b'l' ∷ []

pub record Writer : Type 0 where
  pub buf : Bytes
  pub pos : ℕ

-- Each operation gives the writer afterwards; `none` is the `None` of an overflow. A write past the
-- end is refused by `get_mut`.
unfoldable pub put_u8 : Writer → ℕ → Option Writer
put_u8 w v = do buf ← store w.buf w.pos v; some (record { buf = buf; pos = w.pos + 1 })

unfoldable pub put_u16 : Writer → ℕ → Option Writer
unfolding put_u8
put_u16 w v = do w₁ ← put_u8 w (v / 2 ^ 8 % 2 ^ 8); put_u8 w₁ (v % 2 ^ 8)

unfoldable pub put_u32 : Writer → ℕ → Option Writer
unfolding put_u16
put_u32 w v = do w₁ ← put_u16 w (v / 2 ^ 16 % 2 ^ 16); put_u16 w₁ (v % 2 ^ 16)

-- `for &b in bytes`.
unfoldable pub put_bytes : Writer → Bytes → Option Writer
unfolding put_u8
put_bytes w [] = some w
put_bytes w (b ∷ bs) = do w₁ ← put_u8 w b; put_bytes w₁ bs

-- One turn of `for part in [label, "local"]`.
unfoldable pub put_part : Writer → Bytes → Option Writer
unfolding put_u8 put_bytes
put_part w bytes =
    if length bytes == 0 || ltb 63 (length bytes)
    then none
    else (do w₁ ← put_u8 w (length bytes % 2 ^ 8); put_bytes w₁ bytes)

unfoldable pub put_name : Writer → Bytes → Option Writer
unfolding put_part put_u8
put_name w label = do w₁ ← put_part w label; w₂ ← put_part w₁ local_label; put_u8 w₂ 0

-- Both builders give the buffer afterwards and the length of the packet.
unfoldable pub build_query : Bytes → Bytes → Option (Bytes × ℕ)
unfolding put_u16 put_name
build_query buf label = do
  w₀ ← put_u16 (record { buf = buf; pos = 0 }) 0
  w₁ ← put_u16 w₀ 0
  w₂ ← put_u16 w₁ 1
  w₃ ← put_u16 w₂ 0
  w₄ ← put_u16 w₃ 0
  w₅ ← put_u16 w₄ 0
  w₆ ← put_name w₅ label
  w₇ ← put_u16 w₆ type_a
  w₈ ← put_u16 w₇ class_in
  some (w₈.buf, w₈.pos)

-- An IPv4 address is its four octets.
pub record Ipv4 : Type 0 where
  pub a : ℕ
  pub b : ℕ
  pub c : ℕ
  pub d : ℕ

unfoldable pub build_answer : Bytes → Bytes → Ipv4 → Option (Bytes × ℕ)
unfolding put_u8 put_u16 put_u32 put_name
build_answer buf label ip = do
  w₀ ← put_u16 (record { buf = buf; pos = 0 }) 0
  w₁ ← put_u16 w₀ 0x8400
  w₂ ← put_u16 w₁ 0
  w₃ ← put_u16 w₂ 1
  w₄ ← put_u16 w₃ 0
  w₅ ← put_u16 w₄ 0
  w₆ ← put_name w₅ label
  w₇ ← put_u16 w₆ type_a
  w₈ ← put_u16 w₇ (bit_or 0x8000 class_in)
  w₉ ← put_u32 w₈ 120
  w₁₀ ← put_u16 w₉ 4
  w₁₁ ← put_u8 w₁₀ ip.a
  w₁₂ ← put_u8 w₁₁ ip.b
  w₁₃ ← put_u8 w₁₂ ip.c
  w₁₄ ← put_u8 w₁₃ ip.d
  some (w₁₄.buf, w₁₄.pos)
