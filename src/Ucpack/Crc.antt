-- ===== src/Ucpack/Crc.antt =====
-- `crc8` of `src/alvik/ucpack.rs`.
use native.Mathlib.Nat.{pow-suc}
use beet_esp.Base.{ℕ, zero, suc, ◌/◌, ◌*◌, ◌+◌, ◌^◌, ◌<◌, bit_and, bit_xor, Bool, true}
use beet_esp.Base.{[], ◌∷◌, ◌++◌, ◌≡◌, refl, sym, ◌∙◌, ap, arith, Bytes, IsBytes}
use beet_esp.Base.{◌==◌, ltb, ◌&&◌, if◌then◌else◌, all_below, all_below_sound, all_bytes₂}
use beet_esp.Base.{all_bytes₂_sound, ==_iff, ltb_iff, and_split, xor_cancel, xor-lt, xor_comm}

-- One round of the inner loop on the register `crc` and the bits of the byte that are left.
unfoldable pub crc_round : ℕ → ℕ → ℕ
crc_round crc bits =
    let mix = bit_and (bit_xor crc bits) 1 in
    let shifted = crc / 2 in if mix == 0 then shifted else bit_xor shifted 0x8C

-- `for _ in 0..8`, on the rounds left.
unfoldable pub crc_bits : ℕ → ℕ → ℕ → ℕ
unfolding crc_round
crc_bits zero crc bits = crc
crc_bits (suc n) crc bits = crc_bits n (crc_round crc bits) (bits / 2)

-- `for &byte in data`.
unfoldable pub crc_onto : ℕ → Bytes → ℕ
unfolding crc_bits
crc_onto crc [] = crc
crc_onto crc (byte ∷ rest) = crc_onto (crc_bits 8 crc byte) rest

unfoldable pub crc8 : Bytes → ℕ
unfolding crc_onto
crc8 bytes = crc_onto 0 bytes

-- Mixing a bit in is xoring it into the register.
abbrev round_holds : ℕ → ℕ → Bool
round_holds c b =
    bit_xor (crc_round c b) (b / 2) == crc_round (bit_xor c b) 0 && ltb (crc_round c b) 256

round_table : all_bytes₂ round_holds ≡ true
unfolding crc_round
round_table = refl

-- The round with no bit mixed in can be undone.
unround : ℕ → ℕ
unround y = if ltb y 128 then y * 2 else bit_xor y 0x8C * 2 + 1

unround_table : all_below 256 (λ x. unround (crc_round x 0) == x) ≡ true
unfolding crc_round unround
unround_table = refl

self_table : all_below 256 (λ x. bit_xor x x == 0 && bit_xor x 0 == x) ≡ true
self_table = refl

zero_rounds : crc_bits 8 0 0 ≡ 0
unfolding crc_bits
zero_rounds = refl

crc_round_facts :
    (c b : ℕ)
    → c < 256
    → b < 256
    → (bit_xor (crc_round c b) (b / 2) ≡ crc_round (bit_xor c b) 0) × (crc_round c b < 256)
crc_round_facts c b hc hb =
    let (p, q) =
      and_split (bit_xor (crc_round c b) (b / 2) == crc_round (bit_xor c b) 0)
        (ltb (crc_round c b) 256) (all_bytes₂_sound round_holds round_table c b hc hb) in
    ((==_iff _ _).0 p, (ltb_iff _ _).0 q)

xor_self : (x : ℕ) → x < 256 → (bit_xor x x ≡ 0) × (bit_xor x 0 ≡ x)
xor_self x hx =
    let (p, q) =
      and_split (bit_xor x x == 0) (bit_xor x 0 == x)
        (all_below_sound 256 (λ y. bit_xor y y == 0 && bit_xor y 0 == y) self_table x hx) in
    ((==_iff _ _).0 p, (==_iff _ _).0 q)

zero_of_lt : (b : ℕ) → b < 1 → b ≡ 0
zero_of_lt b h = omega arith

-- The byte enters the checksum only through its xor with the register.
crc_bits-xor :
    (n c b : ℕ) → c < 256 → b < 256 → b < 2 ^ n → crc_bits n c b ≡ crc_bits n (bit_xor c b) 0
unfolding crc_bits
crc_bits-xor zero c b hc hb h = sym (ap (bit_xor c) (zero_of_lt b h) ∙ (xor_self c hc).1)
crc_bits-xor (suc n) c b hc hb h =
    let (mixed, small) = crc_round_facts c b hc hb in
    crc_bits-xor n (crc_round c b) (b / 2) small (omega arith) (omega (arith, pow-suc 2 n))
    ∙ ap (λ r. crc_bits n r 0) mixed

crc_bits-lt : (n c b : ℕ) → c < 256 → b < 256 → crc_bits n c b < 256
unfolding crc_bits
crc_bits-lt zero c b hc hb = hc
crc_bits-lt (suc n) c b hc hb =
    crc_bits-lt n (crc_round c b) (b / 2) (crc_round_facts c b hc hb).1 (omega arith)

-- Rounds with no bit mixed in can be undone, so they keep registers apart.
crc_bits_injective : (n c d : ℕ) → c < 256 → d < 256 → crc_bits n c 0 ≡ crc_bits n d 0 → c ≡ d
unfolding crc_bits
crc_bits_injective zero c d hc hd e = e
crc_bits_injective (suc n) c d hc hd e =
    let r =
      crc_bits_injective n (crc_round c 0) (crc_round d 0) (crc_round_facts c 0 hc (omega arith)).1
        (crc_round_facts d 0 hd (omega arith)).1 e in
    sym (unround_lem c hc) ∙ ap unround r ∙ unround_lem d hd
  where
    unround_lem : (x : ℕ) → x < 256 → unround (crc_round x 0) ≡ x
    unround_lem x hx =
        (==_iff _ _).0 (all_below_sound 256 (λ y. unround (crc_round y 0) == y) unround_table x hx)

-- One byte of the outer loop.
byte_step : (c b : ℕ) → c < 256 → b < 256 → crc_bits 8 c b ≡ crc_bits 8 (bit_xor c b) 0
byte_step c b hc hb = crc_bits-xor 8 c b hc hb hb

byte_injective :
    (c d a b : ℕ)
    → c < 256
    → d < 256
    → a < 256
    → b < 256
    → crc_bits 8 c a ≡ crc_bits 8 d b
    → bit_xor c a ≡ bit_xor d b
byte_injective c d a b hc hd ha hb e =
    crc_bits_injective 8 (bit_xor c a) (bit_xor d b) (xor-lt c a hc ha) (xor-lt d b hd hb)
      (sym (byte_step c a hc ha) ∙ e ∙ byte_step d b hd hb)

xor_right : (c a b : ℕ) → c < 256 → a < 256 → b < 256 → bit_xor c a ≡ bit_xor c b → a ≡ b
xor_right c a b hc ha hb e =
    sym (xor_cancel a c ha hc)
    ∙ ap (λ t. bit_xor t c) (xor_comm a c ha hc ∙ e ∙ xor_comm c b hc hb)
    ∙ xor_cancel b c hb hc

xor_left : (c d b : ℕ) → c < 256 → d < 256 → b < 256 → bit_xor c b ≡ bit_xor d b → c ≡ d
xor_left c d b hc hd hb e =
    sym (xor_cancel c b hc hb) ∙ ap (λ t. bit_xor t b) e ∙ xor_cancel d b hd hb

crc_onto-lt : (c : ℕ) (bs : Bytes) → c < 256 → IsBytes bs → crc_onto c bs < 256
unfolding crc_onto
crc_onto-lt c [] hc h = hc
crc_onto-lt c (b ∷ bs) hc (hb, h) = crc_onto-lt (crc_bits 8 c b) bs (crc_bits-lt 8 c b hc hb) h

pub crc8-lt : (bs : Bytes) → IsBytes bs → crc8 bs < 256
unfolding crc8
crc8-lt bs h = crc_onto-lt 0 bs (omega arith) h

crc_onto_injective :
    (c d : ℕ) (bs : Bytes) → c < 256 → d < 256 → IsBytes bs → crc_onto c bs ≡ crc_onto d bs → c ≡ d
unfolding crc_onto
crc_onto_injective c d [] hc hd h e = e
crc_onto_injective c d (b ∷ bs) hc hd (hb, h) e = xor_left c d b hc hd hb (
    byte_injective c d b b hc hd hb hb (
      crc_onto_injective (crc_bits 8 c b) (crc_bits 8 d b) bs (crc_bits-lt 8 c b hc hb)
        (crc_bits-lt 8 d b hd hb) h e))

crc_onto_detects :
    (c : ℕ) (front back : Bytes) (a b : ℕ)
    → c < 256
    → IsBytes front
    → IsBytes back
    → a < 256
    → b < 256
    → crc_onto c (front ++ (a ∷ back)) ≡ crc_onto c (front ++ (b ∷ back))
    → a ≡ b
unfolding crc_onto
crc_onto_detects c [] back a b hc hf hs ha hb e = xor_right c a b hc ha hb (
    byte_injective c c a b hc hc ha hb
      (crc_onto_injective _ _ back (crc_bits-lt 8 c a hc ha) (crc_bits-lt 8 c b hc hb) hs e))
crc_onto_detects c (x ∷ front) back a b hc (hx, hf) hs ha hb e =
    crc_onto_detects (crc_bits 8 c x) front back a b (crc_bits-lt 8 c x hc hx) hf hs ha hb e

-- Two messages of bytes that differ in one byte at most and have the same checksum are the same:
-- the checksum finds every corruption of a single byte.
pub crc8_detects :
    (front back : Bytes) (a b : ℕ)
    → IsBytes front
    → IsBytes back
    → a < 256
    → b < 256
    → crc8 (front ++ (a ∷ back)) ≡ crc8 (front ++ (b ∷ back))
    → a ≡ b
unfolding crc8
crc8_detects front back a b hf hs ha hb e =
    crc_onto_detects 0 front back a b (omega arith) hf hs ha hb e

crc_onto_residue :
    (c : ℕ) (bs : Bytes) → c < 256 → IsBytes bs → crc_onto c (bs ++ (crc_onto c bs ∷ [])) ≡ 0
unfolding crc_onto
crc_onto_residue c [] hc h =
    byte_step c c hc hc ∙ ap (λ r. crc_bits 8 r 0) (xor_self c hc).0 ∙ zero_rounds
crc_onto_residue c (b ∷ bs) hc (hb, h) =
    crc_onto_residue (crc_bits 8 c b) bs (crc_bits-lt 8 c b hc hb) h

-- The checksum of bytes with their own checksum behind them is 0.
pub crc8_residue : (bs : Bytes) → IsBytes bs → crc8 (bs ++ (crc8 bs ∷ [])) ≡ 0
unfolding crc8
crc8_residue bs h = crc_onto_residue 0 bs (omega arith) h
