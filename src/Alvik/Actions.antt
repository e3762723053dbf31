-- ===== src/Alvik/Actions.antt =====
-- `color_to_label` of `src/alvik/components.rs`, the leaves of `src/alvik/actions.rs` and the handlers of
-- `src/alvik/routes.rs`. Floats are their bits; the channels of a colour in HSV, and what a quantity is as
-- a float, come from the `bevy` and `beet` crates.
use beet_esp.Base.{
  ℕ, ◌+◌, ◌^◌, Bool, true, false, ◌&&◌, ◌||◌, Option, none, some, List, [], ◌∷◌, ◌++◌, Bytes, ℤ,
  pos, negsuc,
}
use beet_esp.Base.{ltb, leb, ◌==◌, if◌then◌else◌}
use beet_esp.Alvik.Units.{Units}
use beet_esp.Alvik.Types.{Side, left, right}
pub mod Choices

-- `x < c`, `x >= c` and `x > c`, for a positive number `c`.
abbrev lt : ℕ → ℕ → Bool
lt x c = leb (2 ^ 31) x && leb x 0xFF800000 || ltb x c

abbrev ge : ℕ → ℕ → Bool
ge x c = leb c x && leb x 0x7F800000

abbrev gt : ℕ → ℕ → Bool
gt x c = ltb c x && leb x 0x7F800000

pub data ColorLabel : Type 0 where
  undefined black grey light_grey white yellow light_green green light_blue blue violet brown orange
        red :
      ColorLabel

-- On hue, saturation and value.
unfoldable pub color_to_label : ℕ → ℕ → ℕ → ColorLabel
color_to_label h s v =
    if lt s 0x3DCCCCCD
    then (if lt v 0x3D4CCCCD
        then black
        else (if lt v 0x3E19999A then grey else (if lt v 0x3F4CCCCD then light_grey else white)))
    else (if gt v 0x3DCCCCCD
        then (if (ge h 0x41A00000 && lt h 0x42B40000)
            then yellow
            else (if (ge h 0x42B40000 && lt h 0x430C0000)
                then light_green
                else (if (ge h 0x430C0000 && lt h 0x432A0000)
                    then green
                    else (if (ge h 0x432A0000 && lt h 0x43520000)
                        then light_blue
                        else (if (ge h 0x43520000 && lt h 0x437A0000)
                            then blue
                            else (if (ge h 0x437A0000 && lt h 0x438C0000)
                                then violet
                                else (if lt v 0x3F000000 && lt s 0x3EE66666
                                    then brown
                                    else (if gt v 0x3F451EB8 then orange else red))))))))
        else black)

-- `line.left >= LINE_BLACK_THRESHOLD`.
abbrev over_line : ℤ → Bool
over_line (pos n) = leb 500 n
over_line (negsuc n) = false

-- A `DifferentialDrive` is its linear and its angular velocity.
module _ (u : Units) where
  -- `LineFollowStep`, on the left line sensor.
  unfoldable pub line_follow_step : ℤ → u.LinearVelocity × u.AngularVelocity
  line_follow_step line =
      if over_line line
      then (u.from_mm_per_sec 0x41A00000, u.from_deg_per_sec 0xC2700000)
      else (u.from_mm_per_sec 0x42200000, u.from_deg_per_sec 0x0)

  -- `RoombaStep`, on the distance ahead: `x <= 200.0` is a number that is not above.
  unfoldable pub roomba_step : u.Distance → u.LinearVelocity × u.AngularVelocity
  roomba_step ahead =
      let x = u.as_millimeters ahead in
      if leb x 0x43480000 || leb (2 ^ 31) x && leb x 0xFF800000
      then (u.from_mm_per_sec 0x0, u.from_deg_per_sec 0xC2B40000)
      else (u.from_mm_per_sec 0x42480000, u.from_deg_per_sec 0x0)

  -- `unwrap_or`.
  abbrev param_or : Option Bytes → Bytes → Bytes
  param_or none d = d
  param_or (some x) d = x

  abbrev is : Bytes → Bytes → Bool
  is [] [] = true
  is (a ∷ as') (b ∷ bs) = a == b && is as' bs
  is _ _ = false

  abbrev speeds : Bytes → ℕ × ℕ
  speeds dir =
      if is dir (b'f' ∷ b'o' ∷ b'r' ∷ b'w' ∷ b'a' ∷ b'r' ∷ b'd' ∷ [])
      then (0x42700000, 0)
      else (if is dir (b'b' ∷ b'a' ∷ b'c' ∷ b'k' ∷ [])
          then (0xC2700000, 0)
          else (if is dir (b'l' ∷ b'e' ∷ b'f' ∷ b't' ∷ [])
              then (0, 0x42B40000)
              else (if is dir (b'r' ∷ b'i' ∷ b'g' ∷ b'h' ∷ b't' ∷ [])
                  then (0, 0xC2B40000)
                  else (0, 0))))

  -- `DriveHandler`, on the parameter: the drive and the text of the response.
  unfoldable pub drive_handler : Option Bytes → (u.LinearVelocity × u.AngularVelocity) × Bytes
  drive_handler param =
      let dir = param_or param (b's' ∷ b't' ∷ b'o' ∷ b'p' ∷ []) in
      let (linear, angular) = speeds dir in
      (
        (u.from_mm_per_sec linear, u.from_deg_per_sec angular),
        (b'd' ∷ b'r' ∷ b'i' ∷ b'v' ∷ b'e' ∷ b' ' ∷ dir) ++ (10 ∷ []),
      )
