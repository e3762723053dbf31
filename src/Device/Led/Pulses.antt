-- ===== src/Device/Led/Pulses.antt =====
-- `src/utils/led.rs` and the colours of `src/scripting/mod.rs`: what goes out on the wire is the colour.
use beet_esp.Base.{ℕ, ◌+◌, ◌*◌, ◌/◌, ◌%◌, ◌^◌, ◌≤◌, ◌<◌, ◌≡◌, ◌≢◌, ◌∙◌, ap}
use beet_esp.Base.{arith, Bool, Option, none, some, List, [], ◌∷◌}
use beet_esp.Base.{take, ◌==◌, if◌then◌else◌, bit_and, bit_or, bit_or-shift}
use beet_esp.Device.Led.{
  Srgb, t1h, PulseCodes, scale, pack_color, unpack_color, zero_code, one_code, Transmitted, Ws2812,
}

-- The length of the first pulse of a code.
pub record PulseLaws {Code : Type 0} (pulses : PulseCodes Code) : Type 0 where
  pub length1 : Code → ℕ
  pub length1-new : (a b : Bool) (n m : ℕ) → length1 (pulses.new a n b m) ≡ n

abbrev pub IsByteColor : Srgb → Type 0
IsByteColor c = (c.red < 256) × (c.green < 256) × (c.blue < 256)

packed :
    (a b c : ℕ)
    → b < 256
    → c < 256
    → bit_or (bit_or (a * 2 ^ 16) (b * 2 ^ 8)) c ≡ a * 2 ^ 16 + b * 2 ^ 8 + c
packed a b c hb hc =
    let inner : bit_or (a * 2 ^ 16) (b * 2 ^ 8) ≡ (a * 2 ^ 8 + b) * 2 ^ 8 =
      bit_or-shift 16 a (b * 2 ^ 8) (omega arith) ∙ omega arith in
    ap (λ t. bit_or t c) inner ∙ bit_or-shift 8 (a * 2 ^ 8 + b) c hc ∙ omega arith

-- A colour is packed into 24 bits and unpacked as itself.
pub unpack_color-pack_color :
    (color : Srgb)
    → IsByteColor color
    → (unpack_color (pack_color color) ≡ color) × (pack_color color < 2 ^ 24)
unfolding unpack_color pack_color
unpack_color-pack_color color (hr, hg, hb) =
    let value = packed color.red color.green color.blue hg hb in
    let red : (color.red * 2 ^ 16 + color.green * 2 ^ 8 + color.blue) / 2 ^ 16 % 2 ^ 8 ≡ color.red =
      omega arith in
    let green : (color.red * 2 ^ 16 + color.green * 2 ^ 8 + color.blue) / 2 ^ 8 % 2 ^ 8
        ≡ color.green =
      omega arith in
    let blue : (color.red * 2 ^ 16 + color.green * 2 ^ 8 + color.blue) % 2 ^ 8 ≡ color.blue =
      omega arith in
    rw value (λ i. record { red = red i; green = green i; blue = blue i }, omega arith)

module _ {Code : Type 0} (pulses : PulseCodes Code) (laws : PulseLaws pulses) where
  -- The number that codes say to a reader that takes a long first pulse for a one.
  abbrev pub read_codes : ℕ → List Code → ℕ
  read_codes acc [] = acc
  read_codes acc (c ∷ cs) = read_codes (acc * 2 + (if laws.length1 c == t1h then 1 else 0)) cs

  bit_of : ℕ → ℕ
  bit_of v =
      if laws.length1 (if bit_and v 1 == 1 then one_code pulses else zero_code pulses) == t1h
      then 1
      else 0

  module _ {Channel : Type 0} (transmit : Channel → List Code → Transmitted Channel) where
    -- What a write leaves: the channel parked again, and in the buffer the colour, green before red
    -- before blue, each scaled by the brightness and no brighter than it was.
    pub record Wrote (color : Srgb) (brightness : ℕ) (led : Ws2812 pulses transmit) : Type 0 where
      pub parked : led.channel ≢ none
      pub same_brightness : led.brightness ≡ brightness
      pub sent :
          read_codes 0 (take 24 led.buf)
          ≡ scale color.green brightness * 2 ^ 16
            + scale color.red brightness * 2 ^ 8
            + scale color.blue brightness
      pub dimmed :
          (scale color.green brightness ≤ color.green)
          × (scale color.red brightness ≤ color.red)
          × (scale color.blue brightness ≤ color.blue)

    abbrev pub Succeeds :
        (Ws2812 pulses transmit → Type 0) → Option (Ws2812 pulses transmit) → Type 0
    Succeeds P none = ⊥
    Succeeds P (some led) = P led
