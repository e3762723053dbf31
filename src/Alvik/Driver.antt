-- ===== src/Alvik/Driver.antt =====
-- `src/alvik/driver.rs`: the coalesced sensor state, and what the driver does with the bytes of a read.
-- `ALVIK_STATE` and `ALVIK_EVENTS` are a signal and a channel; the driver's state carries theirs.
use beet_esp.Base.{
  ℕ, zero, suc, ◌+◌, Option, none, some, Bool, true, false, List, [], ◌∷◌, Bytes, ◌>>=◌, ℤ, pos,
}
use beet_esp.Ucpack.Frame.{Frame}
use beet_esp.Ucpack.Decoder.{Decoder, extend, pop}
use beet_esp.AsyncBridge.{Signal, Channel, publish, send}
use beet_esp.Alvik.Units.{Units}
use beet_esp.Alvik.Protocol.{
  Status, wheel_speeds, wheel_positions, line, color, imu, orientation, battery, tof, tof_matrix,
  touch, motion, behavior, velocity, pose, ack, fw_version, decode,
}
pub mod Pump
pub mod Receive
pub mod Total
pub mod Boot

-- Floats are their bits.
pub record StatusSnapshot (u : Units) : Type 0 where
  pub wheel_left_speed : u.AngularVelocity
  pub wheel_right_speed : u.AngularVelocity
  pub wheel_left_position : u.Angle
  pub wheel_right_position : u.Angle
  pub line : ℤ × ℤ × ℤ
  pub color : ℤ × ℤ × ℤ
  pub imu : ℕ × ℕ × ℕ × ℕ × ℕ × ℕ
  pub orientation : u.Angle × u.Angle × u.Angle
  pub battery : ℕ × Bool
  pub tof_left : u.Distance
  pub tof_center_left : u.Distance
  pub tof_center : u.Distance
  pub tof_center_right : u.Distance
  pub tof_right : u.Distance
  pub tof_top : u.Distance
  pub tof_bottom : u.Distance
  pub velocity : u.LinearVelocity × u.AngularVelocity
  pub pose : u.Distance × u.Distance × u.Angle

module _ (u : Units) where
  -- `StatusSnapshot::default()`.
  pub snapshot_default : StatusSnapshot u
  snapshot_default = record {
    wheel_left_speed = u.no_rotation;
    wheel_right_speed = u.no_rotation;
    wheel_left_position = u.no_angle;
    wheel_right_position = u.no_angle;
    line = (pos 0, pos 0, pos 0);
    color = (pos 0, pos 0, pos 0);
    imu = (0, 0, 0, 0, 0, 0);
    orientation = (u.no_angle, u.no_angle, u.no_angle);
    battery = (0, false);
    tof_left = u.no_distance;
    tof_center_left = u.no_distance;
    tof_center = u.no_distance;
    tof_center_right = u.no_distance;
    tof_right = u.no_distance;
    tof_top = u.no_distance;
    tof_bottom = u.no_distance;
    velocity = (u.no_speed, u.no_rotation);
    pose = (u.no_distance, u.no_distance, u.no_angle);
  }

  -- `apply`: the snapshot afterwards, and a discrete message for the queue.
  unfoldable pub apply : StatusSnapshot u → Status u → StatusSnapshot u × Option (Status u)
  apply s (wheel_speeds l r) = (record s { wheel_left_speed = l; wheel_right_speed = r }, none)
  apply s (wheel_positions l r) =
      (record s { wheel_left_position = l; wheel_right_position = r }, none)
  apply s (Status.line l c r) = (record s { line = (l, c, r) }, none)
  apply s (Status.color r g b) = (record s { color = (r, g, b) }, none)
  apply s (Status.imu a b c d e f) = (record s { imu = (a, b, c, d, e, f) }, none)
  apply s (Status.orientation r p y) = (record s { orientation = (r, p, y) }, none)
  apply s (Status.battery percent charging) = (record s { battery = (percent, charging) }, none)
  apply s (tof l c r) = (record s { tof_left = l; tof_center = c; tof_right = r }, none)
  apply s (tof_matrix l cl c cr r t b) = (
    record s {
      tof_left = l;
      tof_center_left = cl;
      tof_center = c;
      tof_center_right = cr;
      tof_right = r;
      tof_top = t;
      tof_bottom = b;
    },
    none,
  )
  apply s (Status.velocity v w) = (record s { velocity = (v, w) }, none)
  apply s (Status.pose x y t) = (record s { pose = (x, y, t) }, none)
  apply s discrete = (s, some discrete)

-- What the driver keeps between two reads: its decoder, its snapshot, and the two pipes it writes.
pub record Driver (u : Units) (sig : Signal (StatusSnapshot u)) (chan : Channel (Status u))
    : Type 0 where
  pub decoder : Decoder
  pub snapshot : StatusSnapshot u
  pub state : sig.State
  pub events : chan.State

module _ (u : Units) (sig : Signal (StatusSnapshot u)) (chan : Channel (Status u)) where
  -- `match snapshot.apply(status)`: a full event queue drops the message.
  abbrev pub on_applied :
      Driver u sig chan → StatusSnapshot u × Option (Status u) → Driver u sig chan
  on_applied d (snapshot, none) = record d {
    snapshot = snapshot;
    state = publish sig d.state snapshot;
  }
  on_applied d (snapshot, some discrete) = record d {
    snapshot = snapshot;
    events = (send chan d.events discrete).0;
  }

  -- `if let Some(status) = Status::decode(&frame)`.
  abbrev pub on_status : Driver u sig chan → Option (Status u) → Driver u sig chan
  on_status d none = d
  on_status d (some status) = on_applied d (apply u d.snapshot status)

  -- A turn of `while let Some(frame) = self.decoder.pop()` on what `pop` returned; `rest` is the
  -- turns that follow, and `none` is a panic.
  abbrev pub pump_turn :
      (Driver u sig chan → Option (Driver u sig chan))
      → Driver u sig chan
      → Option (Option Frame × Decoder)
      → Option (Driver u sig chan)
  pump_turn rest d none = none
  pump_turn rest d (some (none, e)) = some (record d { decoder = e })
  pump_turn rest d (some (some frame, e)) = do
    status ← decode u frame
    rest (on_status (record d { decoder = e }) status)

  -- The loop, on fuel.
  unfoldable pub pump_loop : ℕ → Driver u sig chan → Option (Driver u sig chan)
  pump_loop zero d = none
  pump_loop (suc fuel) d = let rest = pump_loop fuel in pump_turn rest d (pop d.decoder)

  -- `run` on `Either::First(Ok(read))`: the bytes of one read.
  unfoldable pub on_read : Driver u sig chan → Bytes → Option (Driver u sig chan)
  on_read d bytes = do
    decoder ← extend d.decoder bytes
    pump_loop (suc decoder.len) (record d { decoder = decoder })
