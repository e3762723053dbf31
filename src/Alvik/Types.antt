-- ===== src/Alvik/Types.antt =====
-- `src/alvik/types.rs`.
use beet_esp.Base.{ℕ}

pub data Side : Type 0 where
  left right : Side

unfoldable pub label : Side → ℕ
label left = b'L'
label right = b'R'

pub data TouchButton : Type 0 where
  ok cancel center up left down right : TouchButton

pub data TiltAxis : Type 0 where
  x neg_x y neg_y z neg_z : TiltAxis

-- `MOTION_TILT_NEG_Z` of `src/alvik/events.rs`.
abbrev pub motion_tilt_neg_z : ℕ
motion_tilt_neg_z = 0b1000_0000

-- The bitmasks of the frame before.
pub record EdgeState : Type 0 where
  pub touch : ℕ
  pub motion : ℕ

abbrev pub edge_default : EdgeState
edge_default = record { touch = 0; motion = motion_tilt_neg_z }
