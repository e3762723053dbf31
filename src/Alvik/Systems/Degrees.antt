-- ===== src/Alvik/Systems/Degrees.antt =====
-- `Servo::degrees` of `src/alvik/systems.rs`: what a servo is told is an angle it has.
use mathlib.Core.Path.{subst}
use beet_esp.Base.{ℕ, zero, suc, sym, ◌+◌, ◌-◌, ◌/◌, ◌%◌, ◌^◌, ◌≤◌, ◌≡◌, arith, true, false}
use beet_esp.Base.{ltb, leb, Bool-cases, inl, inr}
use beet_esp.Alvik.Units.{Units}
use beet_esp.Alvik.Systems.{Servo, degrees, clamp_180, as_u8}

-- The significand shifted by an exponent of 127 to 134, of a float of at most 180.
shifted :
    (x d : ℕ)
    → x ≤ 0x43340000
    → x / 2 ^ 23 ≡ 127 + d
    → (2 ^ 23 + x % 2 ^ 23) / 2 ^ (150 - (127 + d)) ≤ 180
shifted x zero small e = omega arith
shifted x (suc zero) small e = omega arith
shifted x (suc (suc zero)) small e = omega arith
shifted x (suc (suc (suc zero))) small e = omega arith
shifted x (suc (suc (suc (suc zero)))) small e = omega arith
shifted x (suc (suc (suc (suc (suc zero))))) small e = omega arith
shifted x (suc (suc (suc (suc (suc (suc zero)))))) small e = omega arith
shifted x (suc (suc (suc (suc (suc (suc (suc zero))))))) small e = omega arith
shifted x (suc (suc (suc (suc (suc (suc (suc (suc d)))))))) small e = absurd (omega arith)

-- A positive float of at most 180.
whole_angle : (x : ℕ) → x ≤ 0x43340000 → as_u8 x ≤ 180
whole_angle x small = elim (Bool-cases (ltb x 0x3F800000)) [
  | inl less ↦ ground arith
  | inr more ↦
      let big : 0x3F800000 ≤ x = ground arith in
      let e : x / 2 ^ 23 ≡ 127 + (x / 2 ^ 23 - 127) = omega arith in
      let fine : ltb 0x7F800000 x ≡ false = ground arith in
      rw (fine, more)
        (subst (λ k. (2 ^ 23 + x % 2 ^ 23) / 2 ^ (150 - k) ≤ 180) (sym e)
          (shifted x (x / 2 ^ 23 - 127) small e))
]

clamped_angle : (x : ℕ) → as_u8 (clamp_180 x) ≤ 180
clamped_angle x = elim (Bool-cases (leb (2 ^ 31) x)) [
  | inl negative ↦ elim (Bool-cases (ltb 0xFF800000 x)) [
    | inl no_number ↦
        let big : ltb 0x7F800000 x ≡ true = ground arith in
        rw (negative, no_number, big) (omega arith)
    | inr number ↦ rw (negative, number) (whole_angle 0 (omega arith))
  ]
  | inr positive ↦ elim (Bool-cases (ltb 0x43340000 x)) [
    | inl above ↦ elim (Bool-cases (leb x 0x7F800000)) [
      | inl number ↦ rw (positive, above, number) (whole_angle 0x43340000 (omega arith))
      | inr no_number ↦
          let big : ltb 0x7F800000 x ≡ true = ground arith in
          rw (positive, above, no_number, big) (omega arith)
    ]
    | inr below ↦
        let small : x ≤ 0x43340000 = ground arith in rw (positive, below) (whole_angle x small)
  ]
]

-- What `degrees` gives is at most 180, whatever the float, also if it is not a number.
pub degrees-bound : (u : Units) (s : Servo u) → degrees u s ≤ 180
unfolding degrees
degrees-bound u s = clamped_angle (u.as_degrees s.at)
