-- ===== src/Device/Led.antt =====
-- The WS2812 driver of `src/utils/led.rs`, and the packing of colours of `src/scripting/mod.rs`. The RMT
-- peripheral of `esp-hal` and the colours of `beet` are parameters; an `Entity` is a number.
use beet_esp.Base.{
  ℕ, zero, suc, ◌+◌, ◌-◌, ◌*◌, ◌/◌, ◌%◌, ◌^◌, Bool, true, false, Option, none, some,
}
use beet_esp.Base.{List, [], ◌∷◌, ◌++◌, ◌==◌, if◌then◌else◌, bit_and, bit_or, ◌>>=◌, replicate}
pub mod Pulses

-- The channels of a colour, as `to_srgba_u8` gives them and `srgb_u8` takes them.
pub record Srgb : Type 0 where
  pub red : ℕ
  pub green : ℕ
  pub blue : ℕ

-- `T0H`, `T0L`, `T1H` and `T1L`.
abbrev pub t0h : ℕ
t0h = 32

abbrev pub t0l : ℕ
t0l = 68

abbrev pub t1h : ℕ
t1h = 68

abbrev pub t1l : ℕ
t1l = 32

-- `esp_hal::rmt::PulseCode`: a level and its length, twice; `true` is `Level::High`.
pub record PulseCodes (Code : Type 0) : Type 0 where
  pub new : Bool → ℕ → Bool → ℕ → Code
  pub end_marker : Code

-- The closure `scale`.
abbrev pub scale : ℕ → ℕ → ℕ
scale v brightness = v * brightness / 255

-- `Grb::from_color`.
unfoldable pub from_color : Srgb → ℕ → ℕ
from_color srgb brightness =
    bit_or (bit_or (scale srgb.green brightness * 2 ^ 16) (scale srgb.red brightness * 2 ^ 8))
      (scale srgb.blue brightness)

unfoldable pub pack_color : Srgb → ℕ
pack_color srgb = bit_or (bit_or (srgb.red * 2 ^ 16) (srgb.green * 2 ^ 8)) srgb.blue

unfoldable pub unpack_color : ℕ → Srgb
unpack_color packed = record {
  red = packed / 2 ^ 16 % 2 ^ 8;
  green = packed / 2 ^ 8 % 2 ^ 8;
  blue = packed % 2 ^ 8;
}

-- How a transmission ends: every way gives the channel back.
pub data Transmitted (Channel : Type 0) : Type 0 where
  not_started : Channel → Transmitted Channel
  failed : Channel → Transmitted Channel
  finished : Channel → Transmitted Channel

module _ {Code : Type 0} (pulses : PulseCodes Code) where
  abbrev pub zero_code : Code
  zero_code = pulses.new true t0h false t0l

  abbrev pub one_code : Code
  one_code = pulses.new true t1h false t1l

  -- The codes of the lowest `k` bits, the highest of them first.
  unfoldable pub bit_codes : ℕ → ℕ → List Code
  bit_codes zero value = []
  bit_codes (suc k) value =
      (if bit_and (value / 2 ^ k) 1 == 1 then one_code else zero_code) ∷ bit_codes k value

  -- `Grb::encode`: the buffer afterwards.
  unfoldable pub encode : ℕ → List Code
  encode value = bit_codes 24 value ++ (pulses.end_marker ∷ [])

  module _ {Channel : Type 0} (transmit : Channel → List Code → Transmitted Channel) where
    pub record Ws2812 : Type 0 where
      pub channel : Option Channel
      pub buf : List Code
      pub brightness : ℕ

    abbrev pub given_back : Transmitted Channel → Channel
    given_back (not_started c) = c
    given_back (failed c) = c
    given_back (finished c) = c

    unfoldable pub with_brightness : Ws2812 → ℕ → Ws2812
    with_brightness led brightness = record led { brightness = brightness }

    -- `none` is the panic of a channel that is not parked.
    unfoldable pub write : Ws2812 → Srgb → Option Ws2812
    write led color =
        let buf = encode (from_color color led.brightness) in
        led.channel >>= λ c.
        some (record led { buf = buf; channel = some (given_back (transmit c buf)) })

    -- `Ws2812::new`, on the configured channel.
    abbrev pub new : Channel → Ws2812
    new channel = record {
      channel = some channel;
      buf = replicate 25 pulses.end_marker;
      brightness = 24;
    }

    -- `Ws2812Drivers`: `insert`, of a key that may be there.
    unfoldable pub insert_driver : List (ℕ × Ws2812) → ℕ → Ws2812 → List (ℕ × Ws2812)
    insert_driver [] entity led = (entity, led) ∷ []
    insert_driver ((e, l) ∷ drivers) entity led =
        let rest = insert_driver drivers entity led in
        if e == entity then (e, led) ∷ drivers else (e, l) ∷ rest

    unfoldable pub release_ws2812_driver : List (ℕ × Ws2812) → ℕ → List (ℕ × Ws2812)
    release_ws2812_driver [] entity = []
    release_ws2812_driver ((e, l) ∷ drivers) entity =
        let rest = release_ws2812_driver drivers entity in
        if e == entity then drivers else (e, l) ∷ rest

    -- The peripherals are `none` where `expect` panics.
    unfoldable pub claim_ws2812_drivers :
        List ℕ → Option Channel → List (ℕ × Ws2812) → Option (List (ℕ × Ws2812))
    claim_ws2812_drivers [] peripherals drivers = some drivers
    claim_ws2812_drivers (entity ∷ entities) peripherals drivers =
        peripherals >>= λ c. some (insert_driver drivers entity (new c))

    -- `get_mut` and `write`, for one entity.
    unfoldable pub write_to : List (ℕ × Ws2812) → ℕ → Srgb → Option (List (ℕ × Ws2812))
    write_to [] entity color = some []
    write_to ((e, l) ∷ drivers) entity color =
        let rest = write_to drivers entity color in
        if e == entity
        then (write l color >>= λ led. some ((e, led) ∷ drivers))
        else (rest >>= λ later. some ((e, l) ∷ later))

    -- The entities whose colour has changed, with it.
    unfoldable pub flush_ws2812 : List (ℕ × Srgb) → List (ℕ × Ws2812) → Option (List (ℕ × Ws2812))
    flush_ws2812 [] drivers = some drivers
    flush_ws2812 ((entity, color) ∷ changed) drivers =
        write_to drivers entity color >>= λ after. flush_ws2812 changed after
