-- ===== src/Alvik/Actions/Choices.antt =====
-- What the classification and the steps choose.
use beet_esp.Base.{ℕ, ◌≡◌, arith, Bool, true, false}
use beet_esp.Alvik.Actions.{ColorLabel, undefined}
use beet_esp.Alvik.Actions.{color_to_label}

-- A label that is one of the thirteen.
abbrev pub named : ColorLabel → Bool
named undefined = false
named _ = true

-- Every colour has a name, also one with channels that are not numbers: `Undefined` is never given.
pub color_to_label-named : (h s v : ℕ) → named (color_to_label h s v) ≡ true
unfolding color_to_label
color_to_label-named h s v = ground arith
