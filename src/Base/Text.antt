-- ===== src/Base/Text.antt =====
-- Text as the list of its bytes.
use Prim.Native.Nat.{ℕ, ◌-◌}
use Prim.Native.Char.{code}
use Prim.Native.String.{String}
use mathlib.Core.Bool.{Bool, true, false, ◌&&◌, ◌||◌}
use mathlib.Core.Option.{Option, none, some}
use mathlib.Core.List.{[], ◌∷◌}
use beet_esp.Base.Num.{leb, ◌==◌, if◌then◌else◌}
use beet_esp.Base.Slice.{Bytes, length, take, drop}

-- The bytes of an ASCII literal.
abbrev pub codes : String → Bytes
codes String.[] = []
codes (String.◌∷◌ c s) = code c ∷ codes s

-- `==` on strings.
abbrev pub same_text : Bytes → Bytes → Bool
same_text [] [] = true
same_text [] (y ∷ ys) = false
same_text (x ∷ xs) [] = false
same_text (x ∷ xs) (y ∷ ys) = (x == y) && same_text xs ys

abbrev pub ends_with : Bytes → Bytes → Bool
ends_with text suffix =
    leb (length suffix) (length text) && same_text (drop (length text - length suffix) text) suffix

abbrev pub strip_suffix : Bytes → Bytes → Option Bytes
strip_suffix text suffix =
    if ends_with text suffix then some (take (length text - length suffix) text) else none

abbrev pub starts_with : Bytes → Bytes → Bool
starts_with text [] = true
starts_with [] (y ∷ ys) = false
starts_with (x ∷ xs) (y ∷ ys) = (x == y) && starts_with xs ys

abbrev pub contains : Bytes → Bytes → Bool
contains [] part = starts_with [] part
contains (x ∷ xs) part = starts_with (x ∷ xs) part || contains xs part

-- `trim_matches`, for the characters of a test.
abbrev pub trim_start : (ℕ → Bool) → Bytes → Bytes
trim_start p [] = []
trim_start p (x ∷ xs) = let rest = trim_start p xs in if p x then rest else x ∷ xs

abbrev pub trim_last : (ℕ → Bool) → ℕ → Bytes → Bytes
trim_last p x [] = if p x then [] else x ∷ []
trim_last p x (y ∷ ys) = x ∷ y ∷ ys

abbrev pub trim_end : (ℕ → Bool) → Bytes → Bytes
trim_end p [] = []
trim_end p (x ∷ xs) = trim_last p x (trim_end p xs)

abbrev pub trim_matches : (ℕ → Bool) → Bytes → Bytes
trim_matches p text = trim_end p (trim_start p text)
