-- ===== src/Alvik/Protocol.antt =====
-- `src/alvik/protocol.rs`: the messages of the carrier and their frames.
pub mod Encoding
pub mod Decoding
pub mod Total
use beet_esp.Base.{ℕ, Bool, Option, none, some, Bytes, ◌>>=◌, ◌==◌, if◌then◌else◌, ℤ}
use beet_esp.Base.{lt_zero, gt_zero, neg, f32_of_i16}
use beet_esp.Ucpack.Frame.{Frame, u8_at, i16_at, f32_at}
use beet_esp.Ucpack.Encoder.{Encoder, c1b, c2b, c3b, c1f, c2f, c3f, c1b3f, c2b1f}
use beet_esp.Alvik.Units.{Units}
use beet_esp.Alvik.Types.{Side, label}

pub data Command (u : Units) : Type 0 where
  set_behavior : ℕ → Command u
  rotate : u.Angle → Command u
  move : u.Distance → Command u
  set_wheel_speeds : u.AngularVelocity → u.AngularVelocity → Command u
  set_wheel_angles : u.Angle → u.Angle → Command u
  drive : u.LinearVelocity → u.AngularVelocity → Command u
  set_servo : ℕ → ℕ → Command u
  set_leds : ℕ → Command u
  reset_pose : u.Distance → u.Distance → u.Angle → Command u
  wheel_reset : Side → u.Angle → Command u
  wheel_speed : Side → u.AngularVelocity → Command u
  wheel_position : Side → u.Angle → Command u
  set_pid_gains : Side → ℕ → ℕ → ℕ → Command u
  ack : ℕ → Command u

-- `encode`: the encoder afterwards and the bytes for the UART; `none` is a panic.
unfoldable pub encode : (u : Units) → Command u → Encoder → Option (Encoder × Bytes)
encode u (set_behavior b) e = c1b e b'B' b
encode u (rotate angle) e = c1f e b'R' (u.as_degrees angle)
encode u (move distance) e = c1f e b'G' (u.as_millimeters distance)
encode u (set_wheel_speeds l r) e = c2f e b'J' (u.as_rpm l) (u.as_rpm r)
encode u (set_wheel_angles l r) e = c2f e b'A' (u.as_degrees l) (u.as_degrees r)
encode u (drive linear angular) e = c2f e b'V' (u.as_mm_per_sec linear) (u.as_deg_per_sec angular)
encode u (set_servo a b) e = c2b e b'S' a b
encode u (set_leds state) e = c1b e b'L' state
encode u (reset_pose x y theta) e =
    c3f e b'Z' (u.as_millimeters x) (u.as_millimeters y) (u.as_degrees theta)
encode u (wheel_reset wheel position) e = c2b1f e b'W' (label wheel) b'Z' (u.as_degrees position)
encode u (wheel_speed wheel speed) e = c2b1f e b'W' (label wheel) b'V' (u.as_rpm speed)
encode u (wheel_position wheel position) e = c2b1f e b'W' (label wheel) b'P' (u.as_degrees position)
encode u (set_pid_gains wheel kp ki kd) e = c1b3f e b'P' (label wheel) kp ki kd
encode u (ack b) e = c1b e b'X' b

pub data Status (u : Units) : Type 0 where
  wheel_speeds : u.AngularVelocity → u.AngularVelocity → Status u
  wheel_positions : u.Angle → u.Angle → Status u
  line : ℤ → ℤ → ℤ → Status u
  color : ℤ → ℤ → ℤ → Status u
  imu : ℕ → ℕ → ℕ → ℕ → ℕ → ℕ → Status u
  orientation : u.Angle → u.Angle → u.Angle → Status u
  battery : ℕ → Bool → Status u
  tof : u.Distance → u.Distance → u.Distance → Status u
  tof_matrix :
      u.Distance
      → u.Distance
      → u.Distance
      → u.Distance
      → u.Distance
      → u.Distance
      → u.Distance
      → Status u
  touch : ℕ → Status u
  motion : ℕ → Status u
  behavior : ℕ → Status u
  velocity : u.LinearVelocity → u.AngularVelocity → Status u
  pose : u.Distance → u.Distance → u.Angle → Status u
  ack : ℕ → Status u
  fw_version : ℕ → ℕ → ℕ → Status u

module _ (u : Units) (f : Frame) where
  -- Two, three of a kind at offsets 0, 4, 8 and a distance from two bytes.
  abbrev two_f32 : (ℕ → ℕ → Status u) → Option (Option (Status u))
  two_f32 k = do a ← f32_at f 0; b ← f32_at f 4; some (some (k a b))

  abbrev three_f32 : (ℕ → ℕ → ℕ → Status u) → Option (Option (Status u))
  three_f32 k = do a ← f32_at f 0; b ← f32_at f 4; c ← f32_at f 8; some (some (k a b c))

  abbrev three_i16 : (ℤ → ℤ → ℤ → Status u) → Option (Option (Status u))
  three_i16 k = do a ← i16_at f 0; b ← i16_at f 2; c ← i16_at f 4; some (some (k a b c))

  abbrev one_u8 : (ℕ → Status u) → Option (Option (Status u))
  one_u8 k = do a ← u8_at f 0; some (some (k a))

  abbrev distance : ℤ → u.Distance
  distance raw = u.from_millimeters (f32_of_i16 raw)

  decode_battery : Option (Option (Status u))
  decode_battery = do
    raw ← f32_at f 0
    some (some (battery (if lt_zero raw then neg raw else raw) (gt_zero raw)))

  decode_imu : Option (Option (Status u))
  decode_imu = do
    a ← f32_at f 0
    b ← f32_at f 4
    c ← f32_at f 8
    d ← f32_at f 12
    e ← f32_at f 16
    g ← f32_at f 20
    some (some (imu a b c d e g))

  decode_tof_matrix : Option (Option (Status u))
  decode_tof_matrix = do
    a ← i16_at f 0
    b ← i16_at f 2
    c ← i16_at f 4
    d ← i16_at f 6
    e ← i16_at f 8
    g ← i16_at f 10
    h ← i16_at f 12
    some (
        some (
          tof_matrix (distance a) (distance b) (distance c) (distance d) (distance e) (distance g)
            (distance h)))

  decode_fw_version : Option (Option (Status u))
  decode_fw_version = do a ← u8_at f 0; b ← u8_at f 1; c ← u8_at f 2; some (some (fw_version a b c))

  -- `decode`: the outer `none` is a panic, the inner one an unknown code.
  unfoldable pub decode : Option (Option (Status u))
  unfolding decode_battery decode_imu decode_tof_matrix decode_fw_version
  decode =
      if f.code == b'j'
      then two_f32 (λ a b. wheel_speeds (u.from_rpm a) (u.from_rpm b))
      else if f.code == b'w'
      then two_f32 (λ a b. wheel_positions (u.from_degrees a) (u.from_degrees b))
      else if f.code == b'l'
      then three_i16 line
      else if f.code == b'c'
      then three_i16 color
      else if f.code == b'i'
      then decode_imu
      else if f.code == b'q'
      then three_f32 (λ a b c. orientation (u.from_degrees a) (u.from_degrees b) (u.from_degrees c))
      else if f.code == b'p'
      then decode_battery
      else if f.code == b'd'
      then three_i16 (λ a b c. tof (distance a) (distance b) (distance c))
      else if f.code == b'f'
      then decode_tof_matrix
      else if f.code == b't'
      then one_u8 touch
      else if f.code == b'm'
      then one_u8 motion
      else if f.code == b'b'
      then one_u8 behavior
      else if f.code == b'v'
      then two_f32 (λ a b. velocity (u.from_mm_per_sec a) (u.from_deg_per_sec b))
      else if f.code == b'z'
      then three_f32
          (λ a b c. pose (u.from_millimeters a) (u.from_millimeters b) (u.from_degrees c))
      else if f.code == b'x'
      then one_u8 Status.ack
      else if f.code == 0x7E
      then decode_fw_version
      else some none
