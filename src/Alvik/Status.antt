-- ===== src/Alvik/Status.antt =====
-- `apply_status` of `src/alvik/systems.rs`, with the components of `src/alvik/components.rs` that it
-- writes. The types of the `bevy` crates that the components wrap, and the arithmetic on floats, are
-- parameters.
use beet_esp.Base.{
  ℕ, zero, suc, ◌+◌, ◌^◌, Bool, true, false, ◌||◌, Option, none, some, List, [], ◌∷◌, map, ℤ,
}
use beet_esp.Base.{ltb, leb, if◌then◌else◌, f32_of_i16}
use beet_esp.AsyncBridge.{Signal, Channel, take_latest, try_recv}
use beet_esp.Alvik.Units.{Units}
use beet_esp.Alvik.Types.{Side, left, right}
use beet_esp.Alvik.Protocol.{Status}
use beet_esp.Alvik.Driver.{StatusSnapshot}
pub mod Applied

-- `f32` arithmetic, `Isometry2d::new` on two lengths and an angle in radians, `Quat::from_euler`,
-- `Color::srgb`, and `Angle::as_radians`.
pub record Spatial (u : Units) : Type 1 where
  pub sub : ℕ → ℕ → ℕ
  pub div : ℕ → ℕ → ℕ
  pub Isometry : Type 0
  pub isometry : ℕ → ℕ → ℕ → Isometry
  pub Quat : Type 0
  pub from_euler : ℕ → ℕ → ℕ → Quat
  pub Color : Type 0
  pub srgb : ℕ → ℕ → ℕ → Color
  pub as_radians : u.Angle → ℕ

-- `ColorSensor`.
pub record ColorSensor (C : Type 0) : Type 0 where
  pub raw : ℤ × ℤ × ℤ
  pub color : C

pub record Tof (u : Units) : Type 0 where
  pub tof_left : u.Distance
  pub center_left : u.Distance
  pub center : u.Distance
  pub center_right : u.Distance
  pub tof_right : u.Distance
  pub top : u.Distance
  pub bottom : u.Distance

pub record Wheel (u : Units) : Type 0 where
  pub side : Side
  pub speed : u.AngularVelocity
  pub position : u.Angle

-- `AlvikComponents`: each component is there or not.
pub record Robot (u : Units) (s : Spatial u) : Type 0 where
  pub pose : Option s.Isometry
  pub imu : Option ((ℕ × ℕ × ℕ) × (ℕ × ℕ × ℕ))
  pub orientation : Option s.Quat
  pub line : Option (ℤ × ℤ × ℤ)
  pub color : Option (ColorSensor s.Color)
  pub tof : Option (Tof u)
  pub battery : Option (ℕ × Bool)
  pub touch : Option ℕ
  pub motion : Option ℕ
  pub behavior : Option ℕ
  pub connected : Option Bool
  pub firmware : Option (ℕ × ℕ × ℕ)

-- `if let Some(component) = robot.component.as_mut() { *component = value }`.
abbrev pub write : {A : Type 0} → Option A → A → Option A
write none a = none
write (some _) a = some a

module _ (u : Units) (s : Spatial u) where
  -- `(value as f32).clamp(black, white)`, of positive bounds.
  abbrev clamped : ℤ → ℕ → ℕ → ℕ
  clamped value black white =
      let x = f32_of_i16 value in
      if leb (2 ^ 31) x || ltb x black then black else (if ltb white x then white else x)

  abbrev channel : ℤ → ℕ → ℕ → ℕ
  channel value black white = s.div (s.sub (clamped value black white) black) (s.sub white black)

  -- The references are 450, 500, 510 and 160, 200, 190.
  unfoldable pub normalize_color : ℤ → ℤ → ℤ → s.Color
  normalize_color r g b =
      s.srgb (channel r 0x43200000 0x43E10000) (channel g 0x43480000 0x43FA0000)
        (channel b 0x433E0000 0x43FF0000)

  abbrev pub wheel_state : StatusSnapshot u → Wheel u → Wheel u
  wheel_state snap w = by_side w.side
    where
      by_side : Side → Wheel u
      by_side left = record w { speed = snap.wheel_left_speed; position = snap.wheel_left_position }
      by_side right = record w {
        speed = snap.wheel_right_speed;
        position = snap.wheel_right_position;
      }

  -- The body of `if let Some(snapshot)`.
  unfoldable pub apply_snapshot : StatusSnapshot u → Robot u s → Robot u s
  apply_snapshot snap robot =
      let (x, y, theta) = snap.pose in
      let (ax, ay, az, gx, gy, gz) = snap.imu in
      let (roll, pitch, yaw) = snap.orientation in
      let (red, green, blue) = snap.color in
      record robot {
        connected = write robot.connected true;
        pose =
            write robot.pose
              (s.isometry (u.as_millimeters x) (u.as_millimeters y) (s.as_radians theta));
        imu = write robot.imu ((ax, ay, az), (gx, gy, gz));
        orientation =
            write robot.orientation
              (s.from_euler (s.as_radians roll) (s.as_radians pitch) (s.as_radians yaw));
        line = write robot.line snap.line;
        color =
            write robot.color
              (record { raw = (red, green, blue); color = normalize_color red green blue });
        tof = write robot.tof (record {
          tof_left = snap.tof_left;
          center_left = snap.tof_center_left;
          center = snap.tof_center;
          center_right = snap.tof_center_right;
          tof_right = snap.tof_right;
          top = snap.tof_top;
          bottom = snap.tof_bottom;
        });
        battery = write robot.battery snap.battery;
      }

  -- `match status`.
  unfoldable pub apply_event : Robot u s → Status u → Robot u s
  apply_event robot (Status.touch bits) = record robot { touch = write robot.touch bits }
  apply_event robot (Status.motion bits) = record robot { motion = write robot.motion bits }
  apply_event robot (Status.behavior code) = record robot { behavior = write robot.behavior code }
  apply_event robot (Status.fw_version major minor patch) = record robot {
    firmware = write robot.firmware (major, minor, patch);
    connected = write robot.connected true;
  }
  apply_event robot _ = robot

  module _ (sig : Signal (StatusSnapshot u)) (chan : Channel (Status u)) where
    -- A turn of `while let Some(status) = ALVIK_EVENTS.try_recv()`; `rest` is the turns that follow.
    abbrev pub event_turn :
        (Robot u s → chan.State → Robot u s × chan.State)
        → Robot u s
        → chan.State × Option (Status u)
        → Robot u s × chan.State
    event_turn rest robot (st, none) = (robot, st)
    event_turn rest robot (st, some status) = rest (apply_event robot status) st

    unfoldable pub apply_events : ℕ → Robot u s → chan.State → Robot u s × chan.State
    apply_events zero robot st = (robot, st)
    apply_events (suc fuel) robot st =
        let rest = apply_events fuel in event_turn rest robot (try_recv chan st)

    abbrev pub on_snapshot :
        Option (StatusSnapshot u) → Robot u s → List (Wheel u) → Robot u s × List (Wheel u)
    on_snapshot none robot wheels = (robot, wheels)
    on_snapshot (some snap) robot wheels =
        (apply_snapshot snap robot, map (wheel_state snap) wheels)

    -- The robot, the wheels, and the two pipes afterwards.
    unfoldable pub apply_status :
        ℕ
        → Robot u s
        → List (Wheel u)
        → sig.State
        → chan.State
        → (Robot u s × List (Wheel u)) × sig.State × chan.State
    apply_status fuel robot wheels state events =
        let latest = take_latest sig state in
        let placed = on_snapshot latest.1 robot wheels in
        let drained = apply_events fuel placed.0 events in
        ((drained.0, placed.1), latest.0, drained.1)
