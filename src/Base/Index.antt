-- ===== src/Base/Index.antt =====
-- What a list holds at an index after it is extended, changed or shortened, and how often.
use Prim.Native.Nat.{ℕ, zero, suc, ◌+◌, ◌<◌}
use native.Mathlib.Omega.{arith}
use mathlib.Core.Path.{◌≡◌, refl, ap}
use mathlib.Core.Logic.{◌⊎◌, inl, inr}
use mathlib.Core.Option.{some}
use mathlib.Core.List.{List, [], ◌∷◌, ◌++◌}
use beet_esp.Base.Num.{◌==◌, if◌then◌else◌}
use beet_esp.Base.Slice.{length, get_elem?, set, All}

module _ {A : Type 0} where
  pub get_elem?-lt : (xs : List A) (i : ℕ) {a : A} → get_elem? xs i ≡ some a → i < length xs
  get_elem?-lt [] i h = cc
  get_elem?-lt (x ∷ xs) zero h = omega arith
  get_elem?-lt (x ∷ xs) (suc i) h = omega (arith, get_elem?-lt xs i h)

  pub get_elem?-append_some :
      (xs ys : List A) (i : ℕ) {a : A} → get_elem? xs i ≡ some a → get_elem? (xs ++ ys) i ≡ some a
  get_elem?-append_some [] ys i h = cc
  get_elem?-append_some (x ∷ xs) ys zero h = h
  get_elem?-append_some (x ∷ xs) ys (suc i) h = get_elem?-append_some xs ys i h

  pub get_elem?-last : (xs : List A) (a : A) → get_elem? (xs ++ (a ∷ [])) (length xs) ≡ some a
  get_elem?-last [] a = refl
  get_elem?-last (x ∷ xs) a = get_elem?-last xs a

  pub get_elem?-snoc :
      (xs : List A) (y : A) (i : ℕ) {a : A}
      → get_elem? (xs ++ (y ∷ [])) i ≡ some a
      → (get_elem? xs i ≡ some a) ⊎ ((i ≡ length xs) × (y ≡ a))
  get_elem?-snoc [] y zero h = inr (refl, cc)
  get_elem?-snoc [] y (suc i) h = cc
  get_elem?-snoc (x ∷ xs) y zero h = inl h
  get_elem?-snoc (x ∷ xs) y (suc i) h = elim (get_elem?-snoc xs y i h) [
    | inl e ↦ inl e
    | inr e ↦ inr (ap suc e.0, e.1)
  ]

  pub get_elem?-set :
      (xs : List A) (i j : ℕ) (v : A) {a : A}
      → get_elem? (set xs i v) j ≡ some a
      → (get_elem? xs j ≡ some a) ⊎ ((j ≡ i) × (v ≡ a))
  get_elem?-set [] i j v h = inl h
  get_elem?-set (x ∷ xs) zero zero v h = inr (refl, cc)
  get_elem?-set (x ∷ xs) zero (suc j) v h = inl h
  get_elem?-set (x ∷ xs) (suc i) zero v h = inl h
  get_elem?-set (x ∷ xs) (suc i) (suc j) v h = elim (get_elem?-set xs i j v h) [
    | inl e ↦ inl e
    | inr e ↦ inr (ap suc e.0, e.1)
  ]

  pub All-map {κ μ} :
      {P : A → Type κ} {Q : A → Type μ} (xs : List A) → ((a : A) → P a → Q a) → All P xs → All Q xs
  All-map [] f h = tt
  All-map (x ∷ xs) f (h, hs) = (f x h, All-map xs f hs)

  -- An item in the middle, and the others.
  pub All-middle {κ} :
      (P : A → Type κ) (xs : List A) (y : A) (ys : List A)
      → All P (xs ++ (y ∷ ys))
      → P y × All P (xs ++ ys)
  All-middle P [] y ys (h, hs) = (h, hs)
  All-middle P (x ∷ xs) y ys (h, hs) =
      let (found, others) = All-middle P xs y ys hs in (found, (h, others))

-- How often a number occurs.
abbrev pub occurs : ℕ → ℕ → ℕ
occurs i j = if i == j then 1 else 0

abbrev pub tally : {A : Type 0} → (A → ℕ) → ℕ → List A → ℕ
tally f i [] = 0
tally f i (x ∷ xs) = occurs i (f x) + tally f i xs

pub tally-append :
    {A : Type 0} (f : A → ℕ) (i : ℕ) (xs ys : List A)
    → tally f i (xs ++ ys) ≡ tally f i xs + tally f i ys
tally-append f i [] ys = omega arith
tally-append f i (x ∷ xs) ys = omega (arith, tally-append f i xs ys)
