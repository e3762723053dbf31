-- ===== src/Base/Bits.antt =====
-- `|` of a shifted number and one that fits below the shift.
use Prim.Native.Nat.{ℕ, zero, suc, ◌+◌, ◌*◌, ◌/◌, ◌%◌, ◌^◌, ◌≤◌, ◌<◌, max, min, digits}
use Prim.Native.Nat.{bit_or, bit_or-bitwise, bit_and, bit_and-bitwise}
use native.Mathlib.Omega.{arith}
use native.Mathlib.Nat.{two-pow-succ, mul-add}
use mathlib.Core.Path.{◌≡◌, refl, ◌∙◌, ap}

abbrev or_digits : ℕ → ℕ → ℕ → ℕ
or_digits = digits (λ b. b) max

or_digits-zero : (n a : ℕ) → a ≤ n → or_digits n a 0 ≡ a
or_digits-zero zero a h = omega arith
or_digits-zero (suc n) zero h = refl
or_digits-zero (suc n) (suc a) h = omega (arith, or_digits-zero n (suc a / 2) (omega arith))

or_digits-shift : (k n a b m : ℕ) → m ≡ a * 2 ^ k → b < 2 ^ k → m ≤ n → or_digits n m b ≡ m + b
or_digits-shift k zero a b m eq small h = omega arith
or_digits-shift k (suc n) a b zero eq small h = omega arith
or_digits-shift zero (suc n) a b (suc m) eq small h =
    let nothing : b ≡ 0 = omega arith in
    ap (or_digits (suc n) (suc m)) nothing ∙ or_digits-zero (suc n) (suc m) h ∙ omega arith
or_digits-shift (suc k) (suc n) a b (suc m) eq small h =
    let twice : 2 ^ suc k ≡ 2 ^ k + 2 ^ k = two-pow-succ k in
    let half : suc m ≡ a * 2 ^ k * 2 =
      eq ∙ ap (λ t. a * t) twice ∙ mul-add a (2 ^ k) (2 ^ k) ∙ omega arith in
    let rest =
      or_digits-shift k n a (b / 2) (suc m / 2) (omega arith) (omega arith) (omega arith) in
    omega (arith, rest)

-- `a << k | b`, where `b` has at most `k` bits.
pub bit_or-shift : (k a b : ℕ) → b < 2 ^ k → bit_or (a * 2 ^ k) b ≡ a * 2 ^ k + b
bit_or-shift k a b small =
    (λ i. bit_or-bitwise (a * 2 ^ k) b i)
    ∙ or_digits-shift k (a * 2 ^ k) a b (a * 2 ^ k) refl small (omega arith)

abbrev and_digits : ℕ → ℕ → ℕ → ℕ
and_digits = digits (λ b. zero) min

and_digits-zero : (n a : ℕ) → and_digits n a 0 ≡ 0
and_digits-zero zero a = refl
and_digits-zero (suc n) zero = refl
and_digits-zero (suc n) (suc a) = omega (arith, and_digits-zero n (suc a / 2))

-- The lowest bit.
pub bit_and-one : (a : ℕ) → bit_and a 1 ≡ a % 2
bit_and-one zero = (λ i. bit_and-bitwise zero 1 i)
bit_and-one (suc a) =
    (λ i. bit_and-bitwise (suc a) 1 i) ∙ omega (arith, and_digits-zero a (suc a / 2))
