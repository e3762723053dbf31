-- ===== src/Base/Num.antt =====
-- Boolean tests on the native numbers, tests on bits, and proof by a table of all values.
use Prim.Native.Nat.{ℕ, zero, suc, ◌≤◌, ◌<◌, compare, Ordering, bit_xor}
use native.Mathlib.Omega.{arith}
use mathlib.Core.Path.{◌≡◌, refl}
use mathlib.Core.Logic.{◌↔◌, ◌⊎◌, inl, inr}
use mathlib.Core.Bool.{Bool, true, false, ◌&&◌}

abbrev pub ltb : ℕ → ℕ → Bool
ltb a b = elim (compare a b) [ Ordering.lt ↦ true | _ ↦ false ]

abbrev pub leb : ℕ → ℕ → Bool
leb a b = elim (compare a b) [ Ordering.gt ↦ false | _ ↦ true ]

infix 50 ◌==◌
abbrev pub ◌==◌ : ℕ → ℕ → Bool
a == b = elim (compare a b) [ Ordering.eq ↦ true | _ ↦ false ]

infix 1 if◌then◌else◌
abbrev pub if◌then◌else◌ {ℓ} : {A : Type ℓ} → Bool → A → A → A
if true then x else y = x
if false then x else y = y

pub Bool-cases : (b : Bool) → (b ≡ true) ⊎ (b ≡ false)
Bool-cases true = inl refl
Bool-cases false = inr refl

pub ==_iff : (a b : ℕ) → (a == b ≡ true) ↔ (a ≡ b)
==_iff a b = (λ h. ground arith, λ h. ground arith)

pub ltb_iff : (a b : ℕ) → (ltb a b ≡ true) ↔ (a < b)
ltb_iff a b = (λ h. ground arith, λ h. ground arith)

pub leb_iff : (a b : ℕ) → (leb a b ≡ true) ↔ (a ≤ b)
leb_iff a b = (λ h. ground arith, λ h. ground arith)

-- `p` holds at every number below the bound.
abbrev pub all_below : ℕ → (ℕ → Bool) → Bool
all_below zero p = true
all_below (suc n) p = p n && all_below n p

pub all_below_sound : (n : ℕ) (p : ℕ → Bool) → all_below n p ≡ true → (x : ℕ) → x < n → p x ≡ true
all_below_sound zero p h x lt = absurd (omega arith)
all_below_sound (suc n) p h x lt =
    ground (arith, λ (r : all_below n p ≡ true) (l : x < n). all_below_sound n p r x l)

-- A property of two bytes, checked at all pairs.
abbrev pub all_bytes₂ : (ℕ → ℕ → Bool) → Bool
all_bytes₂ p = all_below 256 (λ x. all_below 256 (p x))

pub all_bytes₂_sound :
    (p : ℕ → ℕ → Bool) → all_bytes₂ p ≡ true → (x y : ℕ) → x < 256 → y < 256 → p x y ≡ true
all_bytes₂_sound p h x y hx hy =
    all_below_sound 256 (p x) (all_below_sound 256 (λ a. all_below 256 (p a)) h x hx) y hy

abbrev xor_holds : ℕ → ℕ → Bool
xor_holds x y =
    bit_xor (bit_xor x y) y == x && (ltb (bit_xor x y) 256 && bit_xor x y == bit_xor y x)

xor_table : all_bytes₂ xor_holds ≡ true
xor_table = refl

pub and_split : (a b : Bool) → a && b ≡ true → (a ≡ true) × (b ≡ true)
and_split a b h = ground arith

xor_facts :
    (x y : ℕ)
    → x < 256
    → y < 256
    → (bit_xor (bit_xor x y) y ≡ x) × (bit_xor x y < 256) × (bit_xor x y ≡ bit_xor y x)
xor_facts x y hx hy =
    let (a, r) =
      and_split (bit_xor (bit_xor x y) y == x) (ltb (bit_xor x y) 256 && bit_xor x y == bit_xor y x)
        (all_bytes₂_sound xor_holds xor_table x y hx hy) in
    let (b, c) = and_split (ltb (bit_xor x y) 256) (bit_xor x y == bit_xor y x) r in
    ((==_iff _ _).0 a, (ltb_iff _ _).0 b, (==_iff _ _).0 c)

pub xor_cancel : (x y : ℕ) → x < 256 → y < 256 → bit_xor (bit_xor x y) y ≡ x
xor_cancel x y hx hy = (xor_facts x y hx hy).0

pub xor-lt : (x y : ℕ) → x < 256 → y < 256 → bit_xor x y < 256
xor-lt x y hx hy = (xor_facts x y hx hy).1

pub xor_comm : (x y : ℕ) → x < 256 → y < 256 → bit_xor x y ≡ bit_xor y x
xor_comm x y hx hy = (xor_facts x y hx hy).2
