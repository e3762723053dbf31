-- ===== src/Alvik/Units.antt =====
-- The typed quantities of the `beet` crate, which `src/alvik` takes from `beet::prelude`: their types
-- and conversions are parameters. A float is its 32 bits.
use beet_esp.Base.{ℕ, ◌<◌, ◌^◌}

pub record Units : Type 1 where
  pub Angle : Type 0
  pub AngularVelocity : Type 0
  pub Distance : Type 0
  pub LinearVelocity : Type 0
  pub as_degrees : Angle → ℕ
  pub from_degrees : ℕ → Angle
  pub as_rpm : AngularVelocity → ℕ
  pub from_rpm : ℕ → AngularVelocity
  pub as_deg_per_sec : AngularVelocity → ℕ
  pub from_deg_per_sec : ℕ → AngularVelocity
  pub as_millimeters : Distance → ℕ
  pub from_millimeters : ℕ → Distance
  pub as_mm_per_sec : LinearVelocity → ℕ
  pub from_mm_per_sec : ℕ → LinearVelocity
  -- `Default::default()`.
  pub no_angle : Angle
  pub no_rotation : AngularVelocity
  pub no_distance : Distance
  pub no_speed : LinearVelocity

-- What the commands rely on: a conversion gives a float.
pub record UnitLaws (u : Units) : Type 0 where
  pub degrees_f32 : (a : u.Angle) → u.as_degrees a < 2 ^ 32
  pub rpm_f32 : (a : u.AngularVelocity) → u.as_rpm a < 2 ^ 32
  pub deg_per_sec_f32 : (a : u.AngularVelocity) → u.as_deg_per_sec a < 2 ^ 32
  pub millimeters_f32 : (a : u.Distance) → u.as_millimeters a < 2 ^ 32
  pub mm_per_sec_f32 : (a : u.LinearVelocity) → u.as_mm_per_sec a < 2 ^ 32
