-- ===== src/Alvik/Systems/Flush.antt =====
-- What the flushing systems queue, and what they remember.
use mathlib.Core.List.{append_assoc, append-nil}
use beet_esp.Base.{
  ℕ, ◌+◌, ◌≤◌, ◌≡◌, refl, sym, ◌∙◌, ap, arith, Bool, true, false, Option, none, some, List, [], ◌∷◌,
  ◌++◌, map,
}
use beet_esp.Base.{if◌then◌else◌, Bool-cases, inl, inr, length, length-append}
use beet_esp.AsyncBridge.{Channel, send}
use beet_esp.AsyncBridge.Pipes.{ChannelLaws, send-room, send-full}
use beet_esp.Alvik.Units.{Units}
use beet_esp.Alvik.Types.{Side}
use beet_esp.Alvik.Protocol.{Command, set_servo}
use beet_esp.Base.{◌≢◌}
use beet_esp.Alvik.Systems.{ServoId, servo_a, servo_b, degrees}
use beet_esp.Alvik.Systems.{WheelTarget, Servo, Led, led_byte, nothing_lit, same_pair, same_byte}
use beet_esp.Alvik.Systems.{
  wheel_command, flush_wheels, positions, on_positions, flush_servos, flush_alvik_leds,
}

same_pair_refl : (a b : ℕ) → same_pair (some (a, b)) a b ≡ true
same_pair_refl a b = ground arith

same_byte_refl : (b : ℕ) → same_byte (some b) b ≡ true
same_byte_refl b = ground arith

-- The position of the last servo with an id, in degrees.
abbrev pub same_id : ServoId → ServoId → Bool
same_id servo_a servo_a = true
same_id servo_b servo_b = true
same_id _ _ = false

abbrev pub position_of : (u : Units) → ServoId → Option ℕ → List (Servo u) → Option ℕ
position_of u id p [] = p
position_of u id p (s ∷ servos) =
    position_of u id (if same_id id s.id then some (degrees u s) else p) servos

module _ (u : Units) (out : Channel (Command u)) where
  abbrev IsBounded : Option ℕ → Type 0
  IsBounded none = Unit {0}
  IsBounded (some d) = d ≤ 180

  on_positions_settles :
      (last : Option (ℕ × ℕ)) (p : Option ℕ × Option ℕ) (st later : out.State)
      → on_positions u out (on_positions u out last p st).0 p later
        ≡ ((on_positions u out last p st).0, later)
  on_positions_settles last (none, b) st later = refl
  on_positions_settles last (some a, none) st later = refl
  on_positions_settles last (some a, some b) st later = elim (Bool-cases (same_pair last a b)) [
    | inl same ↦ rw (same, same)
    | inr other ↦ rw (other, same_pair_refl a b)
  ]

  -- After `flush_servos` has run, it sends nothing more for the same servos and remembers the same, also
  -- if the command was dropped from a full queue.
  pub flush_servos_settles :
      (last : Option (ℕ × ℕ)) (servos : List (Servo u)) (st later : out.State)
      → flush_servos u out (flush_servos u out last servos st).0 servos later
        ≡ ((flush_servos u out last servos st).0, later)
  unfolding flush_servos
  flush_servos_settles last servos st later =
      on_positions_settles last (positions u out (none, none) servos) st later

  -- After `flush_alvik_leds` has run, it sends nothing more for the same LEDs and lamps and remembers the
  -- same, also if the command was dropped from a full queue.
  pub flush_alvik_leds_settles :
      (last : Option ℕ) (illuminator builtin : Option Bool) (leds : List Led) (st later : out.State)
      → flush_alvik_leds u out
          (flush_alvik_leds u out last illuminator builtin leds st).0
          illuminator
          builtin
          leds
          later
        ≡ ((flush_alvik_leds u out last illuminator builtin leds st).0, later)
  unfolding flush_alvik_leds
  flush_alvik_leds_settles last illuminator builtin leds st later =
      let byte = led_byte illuminator builtin leds in
      elim (Bool-cases (nothing_lit illuminator builtin leds)) [
        | inl dark ↦ rw dark
        | inr some_lit ↦ elim (Bool-cases (same_byte last byte)) [
          | inl same ↦ rw (some_lit, same, same)
          | inr other ↦ rw (some_lit, other, same_byte_refl byte)
        ]
      ]

  module _ (n : ℕ) (laws : ChannelLaws out n) where
    -- A run of `flush_servos`: with a servo missing, or with both as they were sent last, nothing happens; else
    -- one command with both positions, in degrees of at most 180, is queued, and they are remembered.
    pub data IsFlush (last : Option (ℕ × ℕ)) (servos : List (Servo u)) (st : out.State)
        : Option (ℕ × ℕ) × out.State → Type 0 where
      missing :
          (id : ServoId) → position_of u id none servos ≡ none → IsFlush last servos st (last, st)
      unchanged :
          (a b : ℕ)
          → position_of u servo_a none servos ≡ some a
          → position_of u servo_b none servos ≡ some b
          → last ≡ some (a, b)
          → IsFlush last servos st (last, st)
      flushed :
          (a b : ℕ) (st' : out.State)
          → position_of u servo_a none servos ≡ some a
          → position_of u servo_b none servos ≡ some b
          → a ≤ 180
          → b ≤ 180
          → last ≢ some (a, b)
          → laws.contents st' ≡ laws.contents st ++ (set_servo a b ∷ [])
          → IsFlush last servos st (some (a, b), st')

    -- Room for all: the wheels' commands are queued in the order of the wheels.
    pub flush_wheels_lem :
        (wheels : List (Side × WheelTarget u)) (st : out.State)
        → length (laws.contents st) + length wheels ≤ n
        → laws.contents (flush_wheels u out wheels st)
          ≡ laws.contents st ++ map (λ w. wheel_command u out w.0 w.1) wheels
    unfolding flush_wheels
    flush_wheels_lem [] st room = sym (append-nil (laws.contents st))
    flush_wheels_lem ((side, target) ∷ wheels) st room =
        let command = wheel_command u out side target in
        let (_, queued) = send-room out n laws st command (omega arith) in
        let next = (send out st command).0 in
        flush_wheels_lem wheels next
          (omega (arith, ap length queued, length-append (laws.contents st) (command ∷ [])))
        ∙ ap (λ xs. xs ++ map (λ w. wheel_command u out w.0 w.1) wheels) queued
        ∙ append_assoc (laws.contents st) (command ∷ [])
            (map (λ w. wheel_command u out w.0 w.1) wheels)

    -- On a full queue, `flush_servos` queues nothing, yet remembers the positions as sent: as long as they
    -- stay the same, no later run sends them, whatever room there is by then.
    pub flush_servos-full :
        (last : Option (ℕ × ℕ)) (servos : List (Servo u)) (st later : out.State) (a b : ℕ)
        → positions u out (none, none) servos ≡ (some a, some b)
        → n ≤ length (laws.contents st)
        → same_pair last a b ≡ false
        → (laws.contents (flush_servos u out last servos st).1 ≡ laws.contents st)
          × (flush_servos u out (flush_servos u out last servos st).0 servos later
              ≡ (some (a, b), later))
    unfolding flush_servos
    flush_servos-full last servos st later a b both full other =
        let (_, kept) = send-full out n laws st (set_servo a b) full in
        (rw (both, other) kept, rw (both, other, same_pair_refl a b))
