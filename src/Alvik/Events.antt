-- ===== src/Alvik/Events.antt =====
-- `src/alvik/events.rs`: the events of a frame, from the bitmasks of this frame and the one before.
-- What `detect_events` triggers is a list, in the order of the calls of `commands.trigger`.
use beet_esp.Base.{
  ℕ, Bool, true, false, not, ◌&&◌, List, [], ◌∷◌, ◌++◌, bit_and, ◌==◌, if◌then◌else◌,
}
use beet_esp.Alvik.Types.{
  TouchButton, ok, cancel, center, up, left, down, right, TiltAxis, x, neg_x, y, neg_y, z, neg_z,
}
use beet_esp.Alvik.Types.{EdgeState, motion_tilt_neg_z}
pub mod Edges

abbrev pub touch_mask : TouchButton → ℕ
touch_mask ok = 0b0000_0010
touch_mask cancel = 0b0000_0100
touch_mask center = 0b0000_1000
touch_mask up = 0b0001_0000
touch_mask left = 0b0010_0000
touch_mask down = 0b0100_0000
touch_mask right = 0b1000_0000

abbrev pub motion_shake : ℕ
motion_shake = 0b0000_0001

abbrev pub motion_lift : ℕ
motion_lift = 0b0000_0010

abbrev pub tilt_mask : TiltAxis → ℕ
tilt_mask x = 0b0000_0100
tilt_mask neg_x = 0b0000_1000
tilt_mask y = 0b0001_0000
tilt_mask neg_y = 0b0010_0000
tilt_mask z = 0b0100_0000
tilt_mask neg_z = motion_tilt_neg_z

pub data Event : Type 0 where
  touch_pressed : TouchButton → Event
  shaken lifted dropped : Event
  tilted : TiltAxis → Event

-- `mask` is newly set going from `prev` to `next`.
unfoldable pub rising : ℕ → ℕ → ℕ → Bool
rising prev next mask = bit_and prev mask == 0 && not (bit_and next mask == 0)

unfoldable pub falling : ℕ → ℕ → ℕ → Bool
falling prev next mask = not (bit_and prev mask == 0) && bit_and next mask == 0

-- `if test { commands.trigger(event) }`, in front of what is triggered later.
abbrev pub when : Bool → Event → List Event → List Event
when test event later = if test then event ∷ later else later

-- `for (mask, button) in [..]`.
abbrev pub touch_events : List TouchButton → ℕ → ℕ → List Event → List Event
touch_events [] prev next later = later
touch_events (b ∷ bs) prev next later =
    when (rising prev next (touch_mask b)) (touch_pressed b) (touch_events bs prev next later)

-- `for (mask, axis) in [..]`.
abbrev pub tilt_events : List TiltAxis → ℕ → ℕ → List Event
tilt_events [] prev next = []
tilt_events (a ∷ as') prev next =
    when (rising prev next (tilt_mask a)) (tilted a) (tilt_events as' prev next)

-- The events of this frame, and the state that the next frame sees.
unfoldable pub detect_events : EdgeState → ℕ → ℕ → List Event × EdgeState
detect_events prev touch motion = (
  touch_events (ok ∷ cancel ∷ center ∷ up ∷ left ∷ down ∷ right ∷ []) prev.touch touch (
      when (rising prev.motion motion motion_shake) shaken (
        when (rising prev.motion motion motion_lift) lifted (
          when (falling prev.motion motion motion_lift) dropped
            (tilt_events (x ∷ neg_x ∷ y ∷ neg_y ∷ z ∷ neg_z ∷ []) prev.motion motion)))),
  record { touch = touch; motion = motion },
)
