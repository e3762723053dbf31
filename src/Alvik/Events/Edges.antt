-- ===== src/Alvik/Events/Edges.antt =====
-- Which events a frame fires.
use beet_esp.Base.{ℕ, suc, ◌+◌, ◌≡◌, Bool, false, not, ◌&&◌, List, [], ◌∷◌, map, ◌^◌}
use beet_esp.Base.{bit_and, ◌==◌, if◌then◌else◌, Bool-cases, inl, inr}
use beet_esp.Alvik.Types.{ok, cancel, center, up, left, down, right, x, neg_x, y, neg_y, z, neg_z}
use beet_esp.Alvik.Types.{EdgeState}
use beet_esp.Alvik.Events.{Event, touch_pressed, shaken, lifted, dropped, tilted}
use beet_esp.Alvik.Events.{rising, falling, when}
use beet_esp.Alvik.Events.{detect_events}

-- The number of an event's bit: of the touch mask for the buttons, of the motion mask for the rest.
abbrev pub bit_of : Event → ℕ
bit_of (touch_pressed ok) = 1
bit_of (touch_pressed cancel) = 2
bit_of (touch_pressed center) = 3
bit_of (touch_pressed up) = 4
bit_of (touch_pressed left) = 5
bit_of (touch_pressed down) = 6
bit_of (touch_pressed right) = 7
bit_of shaken = 0
bit_of lifted = 1
bit_of dropped = 1
bit_of (tilted x) = 2
bit_of (tilted neg_x) = 3
bit_of (tilted y) = 4
bit_of (tilted neg_y) = 5
bit_of (tilted z) = 6
bit_of (tilted neg_z) = 7

-- A number for each event.
abbrev event_code : Event → ℕ
event_code (touch_pressed b) = bit_of (touch_pressed b)
event_code shaken = 8
event_code lifted = 9
event_code dropped = 16
event_code (tilted a) = 8 + bit_of (tilted a)

-- How often an event is triggered.
abbrev pub fired : Event → List Event → ℕ
fired e [] = 0
fired e (f ∷ fs) = if event_code e == event_code f then suc (fired e fs) else fired e fs

-- Whether a bit of a mask is clear.
abbrev pub is_clear : ℕ → ℕ → Bool
is_clear mask bit = bit_and mask (2 ^ bit) == 0

-- A bit that was clear and is set.
abbrev pub was_set : ℕ → ℕ → ℕ → Bool
was_set before now bit = is_clear before bit && not (is_clear now bit)

abbrev pub was_cleared : ℕ → ℕ → ℕ → Bool
was_cleared before now bit = not (is_clear before bit) && is_clear now bit

-- The edge that an event stands for: its bit was clear and is set, or the other way round for a drop.
abbrev pub edge : Event → EdgeState → ℕ → ℕ → Bool
edge (touch_pressed b) prev touch motion = was_set prev.touch touch (bit_of (touch_pressed b))
edge shaken prev touch motion = was_set prev.motion motion (bit_of shaken)
edge lifted prev touch motion = was_set prev.motion motion (bit_of lifted)
edge dropped prev touch motion = was_cleared prev.motion motion (bit_of dropped)
edge (tilted a) prev touch motion = was_set prev.motion motion (bit_of (tilted a))

abbrev once : Bool → ℕ → ℕ
once test n = if test then suc n else n

rising_same : (p mask : ℕ) → rising p p mask ≡ false
unfolding rising
rising_same p mask = elim (Bool-cases (bit_and p mask == 0)) [
  | inl clear ↦ rw clear
  | inr bit ↦ rw bit
]

falling_same : (p mask : ℕ) → falling p p mask ≡ false
unfolding falling
falling_same p mask = elim (Bool-cases (bit_and p mask == 0)) [
  | inl clear ↦ rw clear
  | inr bit ↦ rw bit
]

-- Events, each under a test.
abbrev sends : List (Bool × Event) → List Event
sends [] = []
sends ((test, f) ∷ fs) = when test f (sends fs)

abbrev tally : Event → List (Bool × Event) → ℕ
tally e [] = 0
tally e ((test, f) ∷ fs) =
    if event_code e == event_code f then once test (tally e fs) else tally e fs

abbrev tests : EdgeState → ℕ → ℕ → List (Bool × Event)
tests p touch motion =
    map (λ e. (edge e p touch motion, e))
      (touch_pressed ok
        ∷ touch_pressed cancel
        ∷ touch_pressed center
        ∷ touch_pressed up
        ∷ touch_pressed left
        ∷ touch_pressed down
        ∷ touch_pressed right
        ∷ shaken
        ∷ lifted
        ∷ dropped
        ∷ tilted x
        ∷ tilted neg_x
        ∷ tilted y
        ∷ tilted neg_y
        ∷ tilted z
        ∷ tilted neg_z
        ∷ [])

-- Masks that stay as they are trigger nothing, and are kept for the next frame.
pub detect_events_steady :
    (touch motion : ℕ)
    → detect_events (record { touch = touch; motion = motion }) touch motion
      ≡ ([], record { touch = touch; motion = motion })
unfolding detect_events
detect_events_steady touch motion = rw (
  rising_same touch 2,
  rising_same touch 4,
  rising_same touch 8,
  rising_same touch 16,
  rising_same touch 32,
  rising_same touch 64,
  rising_same touch 128,
  rising_same motion 1,
  rising_same motion 2,
  falling_same motion 2,
  rising_same motion 4,
  rising_same motion 8,
  rising_same motion 16,
  rising_same motion 32,
  rising_same motion 64,
  rising_same motion 128,
)
