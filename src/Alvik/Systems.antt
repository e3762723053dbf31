-- ===== src/Alvik/Systems.antt =====
-- `src/alvik/systems.rs`: the systems that turn changed components into commands on `ALVIK_OUT`, which
-- is a channel. The components that a query yields are lists, in the order of the iteration.
use beet_esp.Base.{
  ℕ, ◌+◌, ◌-◌, ◌/◌, ◌%◌, ◌^◌, Bool, true, false, not, ◌&&◌, ◌||◌, Option, none, some, List, [], ◌∷◌,
}
use beet_esp.Base.{ltb, leb, ◌==◌, if◌then◌else◌, bit_or}
use beet_esp.AsyncBridge.{Channel, send}
use beet_esp.Alvik.Units.{Units}
use beet_esp.Alvik.Types.{Side, left, right}
use beet_esp.Alvik.Protocol.{Command, wheel_speed, wheel_position, drive, set_servo, set_leds}
pub mod Degrees
pub mod Flush

-- `Wheel` and `WheelTarget` of `src/alvik/components.rs`.
pub data WheelTarget (u : Units) : Type 0 where
  speed : u.AngularVelocity → WheelTarget u
  position : u.Angle → WheelTarget u

-- `ServoId` and `Servo`.
pub data ServoId : Type 0 where
  servo_a servo_b : ServoId

pub record Servo (u : Units) : Type 0 where
  pub id : ServoId
  pub at : u.Angle

-- `x.clamp(0.0, 180.0) as u8` on the bits of `x`: a float that is not a number stays one and gives 0;
-- a negative one gives 0; the bits of positive floats are ordered as they are; and below 256 the whole
-- part is the significand shifted by the exponent.
abbrev pub clamp_180 : ℕ → ℕ
clamp_180 x =
    if leb (2 ^ 31) x
    then (if ltb 0xFF800000 x then x else 0)
    else (if ltb 0x43340000 x && leb x 0x7F800000 then 0x43340000 else x)

abbrev pub as_u8 : ℕ → ℕ
as_u8 x =
    if ltb 0x7F800000 x
    then 0
    else (if ltb x 0x3F800000 then 0 else (2 ^ 23 + x % 2 ^ 23) / 2 ^ (150 - x / 2 ^ 23))

unfoldable pub degrees : (u : Units) → Servo u → ℕ
degrees u s = as_u8 (clamp_180 (u.as_degrees s.at))

-- An `AlvikLed` with the channels of its `LedColor` in sRGB, floats.
pub record Led : Type 0 where
  pub side : Side
  pub red : ℕ
  pub green : ℕ
  pub blue : ℕ

-- `x > 0.5` on the bits of `x`.
abbrev gt_half : ℕ → Bool
gt_half x = ltb 0x3F000000 x && leb x 0x7F800000

abbrev red_bit : Side → ℕ
red_bit left = 0b0000_0100
red_bit right = 0b0010_0000

abbrev green_bit : Side → ℕ
green_bit left = 0b0000_1000
green_bit right = 0b0100_0000

abbrev blue_bit : Side → ℕ
blue_bit left = 0b0001_0000
blue_bit right = 0b1000_0000

-- `if test { byte |= mask }`.
abbrev lit : Bool → ℕ → ℕ → ℕ
lit test mask byte = if test then bit_or byte mask else byte

-- `for (led, color) in &leds`.
abbrev led_bits : ℕ → List Led → ℕ
led_bits byte [] = byte
led_bits byte (l ∷ ls) =
    led_bits
      (lit (gt_half l.blue) (blue_bit l.side)
        (lit (gt_half l.green) (green_bit l.side) (lit (gt_half l.red) (red_bit l.side) byte)))
      ls

abbrev is_on : Option Bool → Bool
is_on none = false
is_on (some b) = b

-- The byte of `flush_alvik_leds`, from the two lamps and the LEDs.
unfoldable pub led_byte : Option Bool → Option Bool → List Led → ℕ
led_byte illuminator builtin leds =
    led_bits (lit (is_on illuminator) 0b0000_0010 (lit (is_on builtin) 0b0000_0001 0)) leds

-- `leds.is_empty() && illuminator.is_none() && builtin.is_none()`.
unfoldable pub nothing_lit : Option Bool → Option Bool → List Led → Bool
nothing_lit none none [] = true
nothing_lit _ _ _ = false

-- `*last == Some((a, b))` and `*last == Some(byte)`.
abbrev pub same_pair : Option (ℕ × ℕ) → ℕ → ℕ → Bool
same_pair none a b = false
same_pair (some (x, y)) a b = x == a && y == b

abbrev pub same_byte : Option ℕ → ℕ → Bool
same_byte none b = false
same_byte (some x) b = x == b

module _ (u : Units) (out : Channel (Command u)) where
  abbrev pub wheel_command : Side → WheelTarget u → Command u
  wheel_command side (speed s) = wheel_speed side s
  wheel_command side (position p) = wheel_position side p

  unfoldable pub flush_wheels : List (Side × WheelTarget u) → out.State → out.State
  flush_wheels [] st = st
  flush_wheels ((side, target) ∷ wheels) st =
      flush_wheels wheels (send out st (wheel_command side target)).0

  -- A `DifferentialDrive` is its linear and its angular velocity.
  unfoldable pub flush_drive : List (u.LinearVelocity × u.AngularVelocity) → out.State → out.State
  flush_drive [] st = st
  flush_drive ((linear, angular) ∷ drives) st =
      flush_drive drives (send out st (drive linear angular)).0

  -- `for servo in &servos`.
  abbrev pub placed : ServoId → ℕ → Option ℕ × Option ℕ → Option ℕ × Option ℕ
  placed servo_a d (a, b) = (some d, b)
  placed servo_b d (a, b) = (a, some d)

  abbrev pub positions : Option ℕ × Option ℕ → List (Servo u) → Option ℕ × Option ℕ
  positions p [] = p
  positions p (s ∷ servos) = positions (placed s.id (degrees u s) p) servos

  abbrev pub on_positions :
      Option (ℕ × ℕ) → Option ℕ × Option ℕ → out.State → Option (ℕ × ℕ) × out.State
  on_positions last (some a, some b) st =
      if same_pair last a b then (last, st) else (some (a, b), (send out st (set_servo a b)).0)
  on_positions last (some a, none) st = (last, st)
  on_positions last (none, b) st = (last, st)

  -- What the system remembers, and the queue.
  unfoldable pub flush_servos :
      Option (ℕ × ℕ) → List (Servo u) → out.State → Option (ℕ × ℕ) × out.State
  flush_servos last servos st = on_positions last (positions (none, none) servos) st

  unfoldable pub flush_alvik_leds :
      Option ℕ → Option Bool → Option Bool → List Led → out.State → Option ℕ × out.State
  flush_alvik_leds last illuminator builtin leds st =
      if nothing_lit illuminator builtin leds
      then (last, st)
      else (let byte = led_byte illuminator builtin leds in
          if same_byte last byte then (last, st) else (some byte, (send out st (set_leds byte)).0))
