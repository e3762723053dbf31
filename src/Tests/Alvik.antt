-- ===== src/Tests/Alvik.antt =====
-- The robot's messages on concrete ones; the quantities are one of two values.
use beet_esp.Base.{ℕ, ◌<◌, ◌^◌, ◌≡◌, refl, arith, none, some, List, [], ◌∷◌, All}
use beet_esp.Base.{true, false, if◌then◌else◌, ◌==◌}
use beet_esp.Ucpack.Frame.{IsFrame}
use beet_esp.Ucpack.Encoder
use beet_esp.Ucpack.Encoder.{Encoder, IsEncoder, new-IsEncoder, wire}
use beet_esp.Ucpack.Decoder
use beet_esp.Ucpack.Decoder.Buffer.{new-Holds}
use beet_esp.Ucpack.Link.{Message, IsMessage, wires, wires-IsBytes}
use beet_esp.Base.{Option, Bytes}
use beet_esp.Alvik.Units.{Units, UnitLaws}
use beet_esp.Alvik.Types.{Side, left, right}
use beet_esp.Alvik.Protocol.{Command, rotate, encode, Status, decode}
use beet_esp.Alvik.Protocol.Encoding.{code_of, payload_of, encode-wire, encode-Alike, Alike}
use beet_esp.Alvik.Protocol.Decoding.{Reading, reading_frame, decode-reading}
use beet_esp.Alvik.Protocol.Total.{Known, decode-Known}
use beet_esp.Alvik.Events.{Event}
use beet_esp.Alvik.Driver.{Driver, snapshot_default}
use beet_esp.Base.{replicate, ◌-◌, ◌/◌}
use beet_esp.Alvik.Protocol.{set_leds}
use beet_esp.Alvik.Systems.{Servo, servo_a, servo_b, Led}
use beet_esp.Alvik.Systems.{flush_servos, degrees, led_byte}
use beet_esp.Alvik.Systems.Flush.{flush_servos-full}
use beet_esp.Alvik.Driver.Total.{Survives, on_read-Survives}
use beet_esp.Alvik.Driver.Boot.Handshake.{BroughtUp, bring_up_lem}
use beet_esp.Alvik.Status.{Spatial, Robot, apply_status}
use beet_esp.Alvik.Status.Applied.{Updated, apply_status-Updated}
use beet_esp.Tests.AsyncBridge.{signal, signal-SignalLaws, channel, channel-ChannelLaws}

abbrev as_f32 : Side → ℕ
as_f32 left = 0
as_f32 right = 0x3F800000

abbrev from_f32 : ℕ → Side
from_f32 w = if w == 0 then left else right

abbrev units : Units
units = record {
  Angle = Side;
  AngularVelocity = Side;
  Distance = Side;
  LinearVelocity = Side;
  as_degrees = as_f32;
  from_degrees = from_f32;
  as_rpm = as_f32;
  from_rpm = from_f32;
  as_deg_per_sec = as_f32;
  from_deg_per_sec = from_f32;
  as_millimeters = as_f32;
  from_millimeters = from_f32;
  as_mm_per_sec = as_f32;
  from_mm_per_sec = from_f32;
  no_angle = left;
  no_rotation = left;
  no_distance = left;
  no_speed = left;
}

as_f32-lt : (s : Side) → as_f32 s < 2 ^ 32
as_f32-lt left = omega arith
as_f32-lt right = omega arith

units-UnitLaws : UnitLaws units
units-UnitLaws = record {
  degrees_f32 = as_f32-lt;
  rpm_f32 = as_f32-lt;
  deg_per_sec_f32 = as_f32-lt;
  millimeters_f32 = as_f32-lt;
  mm_per_sec_f32 = as_f32-lt;
}

abbrev turn : Command units
turn = rotate right

encode-wire_example :
    (e' : Encoder) × (encode units turn Encoder.new
      ≡ some (e', wire (code_of turn) (payload_of units turn)))
    × IsEncoder e'
encode-wire_example = encode-wire units turn Encoder.new new-IsEncoder

encode-wire_again :
    (e' : Encoder) × (encode units turn Encoder.new
      ≡ some (e', wire (code_of turn) (payload_of units turn)))
    × IsEncoder e'
encode-wire_again = encode-wire units turn Encoder.new new-IsEncoder

encode-Alike_example : Alike units turn turn
encode-Alike_example =
    encode-Alike units units-UnitLaws turn turn Encoder.new Encoder.new encode-wire_again.0
      encode-wire_again.0 (wire (code_of turn) (payload_of units turn)) tt tt new-IsEncoder
      new-IsEncoder encode-wire_again.1 encode-wire_again.1

abbrev power : Reading
power = Reading.battery 0xC2480000

decode-reading_example :
    decode units (reading_frame power) ≡ some (some (Status.battery 0x42480000 false))
decode-reading_example = decode-reading units power (omega arith)

power-IsFrame : IsFrame (reading_frame power)
power-IsFrame = record { full = refl; within = omega arith }

decode-Known_example : Known units (decode units (reading_frame power)) true
decode-Known_example = decode-Known units (reading_frame power) power-IsFrame

abbrev idle : Driver units (signal _) (channel _)
idle = record {
  decoder = Decoder.new;
  snapshot = snapshot_default units;
  state = none;
  events = [];
}

abbrev readings : List Reading
readings = Reading.battery 0xC2480000 ∷ Reading.touch 2 ∷ []

abbrev Queue : Type 0
Queue = List (Command units)

-- Both servos, at 0 and at 1 degree.
abbrev servos : List (Servo units)
servos = record { id = servo_a; at = left } ∷ record { id = servo_b; at = right } ∷ []

degrees_test : degrees units (record { id = servo_b; at = right }) ≡ 1
unfolding degrees
degrees_test = refl

-- A full queue.
abbrev busy : Queue
busy = replicate 32 (set_leds 0)

flush_servos-full_example :
    ((flush_servos units (channel _) none servos busy).1 ≡ busy)
    × (flush_servos units (channel _) (flush_servos units (channel _) none servos busy).0 servos []
        ≡ (some (0, 1), []))
unfolding degrees
flush_servos-full_example =
    flush_servos-full units (channel _) 32 (channel-ChannelLaws _) none servos busy [] 0 1 refl
      (omega arith) refl

-- A red LED on the left.
abbrev leds : List Led
leds = record { side = left; red = 0x3F800000; green = 0; blue = 0 } ∷ []

led_byte_test : led_byte (some true) none leds ≡ 0b0000_0110
unfolding led_byte
led_byte_test = refl

-- Half a frame.
abbrev half : List ℕ
half = 0x41 ∷ 5 ∷ b'p' ∷ 7 ∷ []

on_read-Survives_example : Survives units (signal _) (channel _) idle half
on_read-Survives_example =
    on_read-Survives units (signal _) (channel _) idle [] half new-Holds tt
      (omega arith, (omega arith, (omega arith, (omega arith, tt))))

-- The startup ack and the version 1.1.0, as the carrier sends them.
abbrev greeting : List Message
greeting =
    record { code = b'x'; payload = 0 ∷ [] } ∷ record { code = 0x7E; payload = 1 ∷ 1 ∷ 0 ∷ [] } ∷ []

greeting-IsMessage : All IsMessage greeting
greeting-IsMessage = (
  record { fits = omega arith; code_byte = omega arith; bytes = (omega arith, tt) },
  (
    record {
      fits = omega arith;
      code_byte = omega arith;
      bytes = (omega arith, (omega arith, (omega arith, tt)));
    },
    tt,
  ),
)

-- A read that timed out, and one with both messages.
abbrev boot_reads : List (Option Bytes)
boot_reads = none ∷ some (wires greeting) ∷ []

bring_up_lem_example :
    BroughtUp units (channel _) 32 (channel-ChannelLaws _) Encoder.new boot_reads []
bring_up_lem_example =
    bring_up_lem units (channel _) 32 (channel-ChannelLaws _) Encoder.new boot_reads []
      new-IsEncoder (tt, (wires-IsBytes greeting greeting-IsMessage, tt)) (omega arith)

abbrev spatial : Spatial units
spatial = record {
  sub = λ a b. a - b;
  div = λ a b. a / b;
  Isometry = ℕ × ℕ × ℕ;
  isometry = λ a b c. (a, b, c);
  Quat = ℕ × ℕ × ℕ;
  from_euler = λ a b c. (a, b, c);
  Color = ℕ × ℕ × ℕ;
  srgb = λ a b c. (a, b, c);
  as_radians = as_f32;
}

abbrev robot : Robot units spatial
robot = record {
  pose = none;
  imu = none;
  orientation = none;
  line = none;
  color = none;
  tof = none;
  battery = some (0, false);
  touch = some 0;
  motion = none;
  behavior = none;
  connected = some false;
  firmware = none;
}

abbrev messages : List (Status units)
messages = Status.touch 4 ∷ Status.touch 2 ∷ Status.ack 0 ∷ []

apply_status-Updated_example :
    Updated units spatial
      (signal _)
      (channel _)
      32
      (signal-SignalLaws _)
      (channel-ChannelLaws _)
      (some (snapshot_default units))
      messages
      robot
      []
      (apply_status units spatial
        (signal _)
        (channel _)
        33
        robot
        []
        (some (snapshot_default units))
        messages)
apply_status-Updated_example =
    apply_status-Updated units spatial (signal _) (channel _) 32 (signal-SignalLaws _)
      (channel-ChannelLaws _) 33 robot [] (some (snapshot_default units)) messages (omega arith)
