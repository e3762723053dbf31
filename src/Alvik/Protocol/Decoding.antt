-- ===== src/Alvik/Protocol/Decoding.antt =====
-- What a status message is on the wire, and that decoding reads it back and never panics.
use beet_esp.Base.{ℕ, ◌/◌, ◌%◌, ◌^◌, ◌<◌, ◌≡◌, refl, arith, some}
use beet_esp.Base.{List, [], ◌∷◌, ◌++◌, Bytes, le_bytes32, le_word32, le_word16}
use beet_esp.Base.{
  le_word32-le_bytes32, i16_from_bits, lt_zero, gt_zero, neg, f32_of_i16, if◌then◌else◌,
}
use beet_esp.Ucpack.Frame.{Frame, u8_at, i16_at, f32_at}
use beet_esp.Ucpack.Stream.{to_frame}
use beet_esp.Alvik.Units.{Units}
use beet_esp.Alvik.Protocol.{Status, decode}

-- A status message as the carrier sends it: floats as their bits, 16-bit counts as words, bytes.
pub data Reading : Type 0 where
  wheel_speeds wheel_positions velocity : ℕ → ℕ → Reading
  line color tof : ℕ → ℕ → ℕ → Reading
  imu : ℕ → ℕ → ℕ → ℕ → ℕ → ℕ → Reading
  orientation pose : ℕ → ℕ → ℕ → Reading
  battery : ℕ → Reading
  tof_matrix : ℕ → ℕ → ℕ → ℕ → ℕ → ℕ → ℕ → Reading
  touch motion behavior ack : ℕ → Reading
  fw_version : ℕ → ℕ → ℕ → Reading

abbrev pub reading_code : Reading → ℕ
reading_code (wheel_speeds a b) = b'j'
reading_code (wheel_positions a b) = b'w'
reading_code (velocity a b) = b'v'
reading_code (line a b c) = b'l'
reading_code (color a b c) = b'c'
reading_code (tof a b c) = b'd'
reading_code (imu a b c d e f) = b'i'
reading_code (orientation a b c) = b'q'
reading_code (pose a b c) = b'z'
reading_code (battery a) = b'p'
reading_code (tof_matrix a b c d e f g) = b'f'
reading_code (touch a) = b't'
reading_code (motion a) = b'm'
reading_code (behavior a) = b'b'
reading_code (ack a) = b'x'
reading_code (fw_version a b c) = 0x7E

abbrev pub le_bytes16 : ℕ → Bytes
le_bytes16 w = w % 2 ^ 8 ∷ w / 2 ^ 8 % 2 ^ 8 ∷ []

abbrev pub words32 : List ℕ → Bytes
words32 [] = []
words32 (w ∷ ws) = le_bytes32 w ++ words32 ws

abbrev pub words16 : List ℕ → Bytes
words16 [] = []
words16 (w ∷ ws) = le_bytes16 w ++ words16 ws

abbrev pub reading_payload : Reading → Bytes
reading_payload (wheel_speeds a b) = words32 (a ∷ b ∷ [])
reading_payload (wheel_positions a b) = words32 (a ∷ b ∷ [])
reading_payload (velocity a b) = words32 (a ∷ b ∷ [])
reading_payload (line a b c) = words16 (a ∷ b ∷ c ∷ [])
reading_payload (color a b c) = words16 (a ∷ b ∷ c ∷ [])
reading_payload (tof a b c) = words16 (a ∷ b ∷ c ∷ [])
reading_payload (imu a b c d e f) = words32 (a ∷ b ∷ c ∷ d ∷ e ∷ f ∷ [])
reading_payload (orientation a b c) = words32 (a ∷ b ∷ c ∷ [])
reading_payload (pose a b c) = words32 (a ∷ b ∷ c ∷ [])
reading_payload (battery a) = words32 (a ∷ [])
reading_payload (tof_matrix a b c d e f g) = words16 (a ∷ b ∷ c ∷ d ∷ e ∷ f ∷ g ∷ [])
reading_payload (touch a) = a ∷ []
reading_payload (motion a) = a ∷ []
reading_payload (behavior a) = a ∷ []
reading_payload (ack a) = a ∷ []
reading_payload (fw_version a b c) = a ∷ b ∷ c ∷ []

abbrev F32 : ℕ → Type 0
F32 x = x < 2 ^ 32

abbrev I16 : ℕ → Type 0
I16 x = x < 2 ^ 16

abbrev pub IsReading : Reading → Type 0
IsReading (wheel_speeds a b) = F32 a × F32 b
IsReading (wheel_positions a b) = F32 a × F32 b
IsReading (velocity a b) = F32 a × F32 b
IsReading (line a b c) = I16 a × I16 b × I16 c
IsReading (color a b c) = I16 a × I16 b × I16 c
IsReading (tof a b c) = I16 a × I16 b × I16 c
IsReading (imu a b c d e f) = F32 a × F32 b × F32 c × F32 d × F32 e × F32 f
IsReading (orientation a b c) = F32 a × F32 b × F32 c
IsReading (pose a b c) = F32 a × F32 b × F32 c
IsReading (battery a) = F32 a
IsReading (tof_matrix a b c d e f g) = I16 a × I16 b × I16 c × I16 d × I16 e × I16 f × I16 g
IsReading _ = Unit {0}

module _ (u : Units) where
  abbrev mm : ℕ → u.Distance
  mm w = u.from_millimeters (f32_of_i16 (i16_from_bits w))

  -- What a reading means: the battery's sign is its charging flag.
  abbrev pub meaning : Reading → Status u
  meaning (wheel_speeds a b) = Status.wheel_speeds (u.from_rpm a) (u.from_rpm b)
  meaning (wheel_positions a b) = Status.wheel_positions (u.from_degrees a) (u.from_degrees b)
  meaning (velocity a b) = Status.velocity (u.from_mm_per_sec a) (u.from_deg_per_sec b)
  meaning (line a b c) = Status.line (i16_from_bits a) (i16_from_bits b) (i16_from_bits c)
  meaning (color a b c) = Status.color (i16_from_bits a) (i16_from_bits b) (i16_from_bits c)
  meaning (tof a b c) = Status.tof (mm a) (mm b) (mm c)
  meaning (imu a b c d e f) = Status.imu a b c d e f
  meaning (orientation a b c) =
      Status.orientation (u.from_degrees a) (u.from_degrees b) (u.from_degrees c)
  meaning (pose a b c) =
      Status.pose (u.from_millimeters a) (u.from_millimeters b) (u.from_degrees c)
  meaning (battery a) = Status.battery (if lt_zero a then neg a else a) (gt_zero a)
  meaning (tof_matrix a b c d e f g) =
      Status.tof_matrix (mm a) (mm b) (mm c) (mm d) (mm e) (mm f) (mm g)
  meaning (touch a) = Status.touch a
  meaning (motion a) = Status.motion a
  meaning (behavior a) = Status.behavior a
  meaning (ack a) = Status.ack a
  meaning (fw_version a b c) = Status.fw_version a b c

abbrev pub reading_frame : Reading → Frame
reading_frame r = to_frame (reading_code r) (reading_payload r)

back32 :
    (w : ℕ)
    → w < 2 ^ 32
    → le_word32 (w % 2 ^ 8) (w / 2 ^ 8 % 2 ^ 8) (w / 2 ^ 16 % 2 ^ 8) (w / 2 ^ 24 % 2 ^ 8) ≡ w
back32 = le_word32-le_bytes32

back16 : (w : ℕ) → w < 2 ^ 16 → le_word16 (w % 2 ^ 8) (w / 2 ^ 8 % 2 ^ 8) ≡ w
back16 w h = omega arith

-- Every status message that the carrier sends is decoded as what it means.
pub decode-reading :
    (u : Units) (r : Reading) → IsReading r → decode u (reading_frame r) ≡ some (some (meaning u r))
unfolding decode u8_at i16_at f32_at
decode-reading u (wheel_speeds a b) (ha, hb) = rw (back32 a ha, back32 b hb)
decode-reading u (wheel_positions a b) (ha, hb) = rw (back32 a ha, back32 b hb)
decode-reading u (velocity a b) (ha, hb) = rw (back32 a ha, back32 b hb)
decode-reading u (line a b c) (ha, hb, hc) = rw (back16 a ha, back16 b hb, back16 c hc)
decode-reading u (color a b c) (ha, hb, hc) = rw (back16 a ha, back16 b hb, back16 c hc)
decode-reading u (tof a b c) (ha, hb, hc) = rw (back16 a ha, back16 b hb, back16 c hc)
decode-reading u (imu a b c d e f) (ha, hb, hc, hd, he, hf) =
    rw (back32 a ha, back32 b hb, back32 c hc, back32 d hd, back32 e he, back32 f hf)
decode-reading u (orientation a b c) (ha, hb, hc) = rw (back32 a ha, back32 b hb, back32 c hc)
decode-reading u (pose a b c) (ha, hb, hc) = rw (back32 a ha, back32 b hb, back32 c hc)
decode-reading u (battery a) ha = rw (back32 a ha)
decode-reading u (tof_matrix a b c d e f g) (ha, hb, hc, hd, he, hf, hg) =
    rw (back16 a ha, back16 b hb, back16 c hc, back16 d hd, back16 e he, back16 f hf, back16 g hg)
decode-reading u (touch a) h = refl
decode-reading u (motion a) h = refl
decode-reading u (behavior a) h = refl
decode-reading u (ack a) h = refl
decode-reading u (fw_version a b c) h = refl
