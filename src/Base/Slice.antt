-- ===== src/Base/Slice.antt =====
-- Slices, arrays and `Vec`s as lists. Where Rust panics on an index or a range, these are `none`.
use Prim.Native.Nat.{ℕ, zero, suc, ◌+◌, ◌-◌, ◌≤◌, ◌<◌, min}
use native.Mathlib.Omega.{arith}
use mathlib.Core.Path.{◌≡◌, refl, sym, ◌∙◌, ap, ap₂}
use mathlib.Core.Bool.{◌&&◌}
use mathlib.Core.Option
use mathlib.Core.Option.{Option, none, some}
use mathlib.Core.List.{List, [], ◌∷◌, ◌++◌, append_assoc}
use beet_esp.Base.Num.{ltb, leb, if◌then◌else◌, ltb_iff, leb_iff}

abbrev pub Bytes : Type 0
Bytes = List ℕ

-- Every item has the property.
abbrev pub All {ℓ κ} : {A : Type ℓ} → (A → Type κ) → List A → Type κ
All P [] = Unit
All P (x ∷ xs) = P x × All P xs

abbrev pub IsBytes : Bytes → Type 0
IsBytes bs = All (λ b. b < 256) bs

infixl 5 ◌>>=◌ ◌>>◌
abbrev pub ◌>>=◌ {ℓ κ} : {A : Type ℓ} {B : Type κ} → Option A → (A → Option B) → Option B
none >>= f = none
some a >>= f = f a

abbrev pub ◌>>◌ {ℓ κ} : {A : Type ℓ} {B : Type κ} → Option A → Option B → Option B
m >> k = m >>= λ _. k

suc_add : (a b : ℕ) → suc (a + b) ≡ suc a + b
suc_add a b = omega arith

module _ {ℓ} {A : Type ℓ} where
  abbrev pub length : List A → ℕ
  length [] = 0
  length (x ∷ xs) = suc (length xs)

  -- `xs[i]` and `xs.get(i)`.
  abbrev pub get_elem? : List A → ℕ → Option A
  get_elem? [] i = none
  get_elem? (x ∷ xs) zero = some x
  get_elem? (x ∷ xs) (suc i) = get_elem? xs i

  abbrev pub get_or : List A → ℕ → A → A
  get_or xs i d = Option.get_or (get_elem? xs i) d

  abbrev pub set : List A → ℕ → A → List A
  set [] i v = []
  set (x ∷ xs) zero v = v ∷ xs
  set (x ∷ xs) (suc i) v = x ∷ set xs i v

  abbrev pub take : ℕ → List A → List A
  take zero xs = []
  take (suc n) [] = []
  take (suc n) (x ∷ xs) = x ∷ take n xs

  abbrev pub drop : ℕ → List A → List A
  drop zero xs = xs
  drop (suc n) [] = []
  drop (suc n) (x ∷ xs) = drop n xs

  abbrev pub replicate : ℕ → A → List A
  replicate zero x = []
  replicate (suc n) x = x ∷ replicate n x

  -- `xs[i] = v`.
  unfoldable pub store : List A → ℕ → A → Option (List A)
  store xs i v = if ltb i (length xs) then some (set xs i v) else none

  -- `&xs[a..b]`.
  unfoldable pub slice : List A → ℕ → ℕ → Option (List A)
  slice xs a b = if leb a b && leb b (length xs) then some (take (b - a) (drop a xs)) else none

  -- `xs[a..a + src.len()].copy_from_slice(src)`.
  unfoldable pub copy_into : List A → ℕ → List A → Option (List A)
  copy_into xs a src =
      if leb (a + length src) (length xs)
      then some (take a xs ++ (src ++ drop (a + length src) xs))
      else none

  -- `xs.copy_within(a..b, 0)`.
  unfoldable pub copy_within : List A → ℕ → ℕ → Option (List A)
  copy_within xs a b =
      if leb a b && leb b (length xs)
      then some (take (b - a) (drop a xs) ++ drop (b - a) xs)
      else none

  pub length-append : (xs ys : List A) → length (xs ++ ys) ≡ length xs + length ys
  length-append [] ys = omega arith
  length-append (x ∷ xs) ys = omega (arith, length-append xs ys)

  pub length-take : (n : ℕ) (xs : List A) → length (take n xs) ≡ min n (length xs)
  length-take zero xs = omega arith
  length-take (suc n) [] = omega arith
  length-take (suc n) (x ∷ xs) = omega (arith, length-take n xs)

  pub length-drop : (n : ℕ) (xs : List A) → length (drop n xs) ≡ length xs - n
  length-drop zero xs = omega arith
  length-drop (suc n) [] = omega arith
  length-drop (suc n) (x ∷ xs) = omega (arith, length-drop n xs)

  pub length-set : (xs : List A) (i : ℕ) (v : A) → length (set xs i v) ≡ length xs
  length-set [] i v = refl
  length-set (x ∷ xs) zero v = refl
  length-set (x ∷ xs) (suc i) v = ap suc (length-set xs i v)

  pub length-replicate : (n : ℕ) (x : A) → length (replicate n x) ≡ n
  length-replicate zero x = refl
  length-replicate (suc n) x = ap suc (length-replicate n x)

  pub take-append-drop : (n : ℕ) (xs : List A) → take n xs ++ drop n xs ≡ xs
  take-append-drop zero xs = refl
  take-append-drop (suc n) [] = refl
  take-append-drop (suc n) (x ∷ xs) = ap (◌∷◌ x) (take-append-drop n xs)

  pub take-append_left : (n : ℕ) (xs ys : List A) → n ≤ length xs → take n (xs ++ ys) ≡ take n xs
  take-append_left zero xs ys h = refl
  take-append_left (suc n) [] ys h = absurd (omega arith)
  take-append_left (suc n) (x ∷ xs) ys h = ap (◌∷◌ x) (take-append_left n xs ys (omega arith))

  pub drop-append_left :
      (n : ℕ) (xs ys : List A) → n ≤ length xs → drop n (xs ++ ys) ≡ drop n xs ++ ys
  drop-append_left zero xs ys h = refl
  drop-append_left (suc n) [] ys h = absurd (omega arith)
  drop-append_left (suc n) (x ∷ xs) ys h = drop-append_left n xs ys (omega arith)

  pub take_all : (n : ℕ) (xs : List A) → length xs ≤ n → take n xs ≡ xs
  take_all zero [] h = refl
  take_all zero (x ∷ xs) h = absurd (omega arith)
  take_all (suc n) [] h = refl
  take_all (suc n) (x ∷ xs) h = ap (◌∷◌ x) (take_all n xs (omega arith))

  pub take-append_self : (n : ℕ) (xs ys : List A) → length xs ≡ n → take n (xs ++ ys) ≡ xs
  take-append_self n xs ys h = take-append_left n xs ys (omega arith) ∙ take_all n xs (omega arith)

  pub drop-append_self : (n : ℕ) (xs ys : List A) → length xs ≡ n → drop n (xs ++ ys) ≡ ys
  drop-append_self zero [] ys h = refl
  drop-append_self zero (x ∷ xs) ys h = absurd (omega arith)
  drop-append_self (suc n) [] ys h = absurd (omega arith)
  drop-append_self (suc n) (x ∷ xs) ys h = drop-append_self n xs ys (omega arith)

  pub get_elem?-eq-get_or :
      (xs : List A) (i : ℕ) (d : A) → i < length xs → get_elem? xs i ≡ some (get_or xs i d)
  get_elem?-eq-get_or [] i d h = absurd (omega arith)
  get_elem?-eq-get_or (x ∷ xs) zero d h = refl
  get_elem?-eq-get_or (x ∷ xs) (suc i) d h = get_elem?-eq-get_or xs i d (omega arith)

  pub get_elem?-none : (xs : List A) (i : ℕ) → length xs ≤ i → get_elem? xs i ≡ none
  get_elem?-none [] i h = refl
  get_elem?-none (x ∷ xs) zero h = absurd (omega arith)
  get_elem?-none (x ∷ xs) (suc i) h = get_elem?-none xs i (omega arith)

  pub get_elem?-take : (n i : ℕ) (xs : List A) → i < n → get_elem? (take n xs) i ≡ get_elem? xs i
  get_elem?-take zero i xs h = absurd (omega arith)
  get_elem?-take (suc n) i [] h = refl
  get_elem?-take (suc n) zero (x ∷ xs) h = refl
  get_elem?-take (suc n) (suc i) (x ∷ xs) h = get_elem?-take n i xs (omega arith)

  pub get_elem?-append_left :
      (xs ys : List A) (i : ℕ) → i < length xs → get_elem? (xs ++ ys) i ≡ get_elem? xs i
  get_elem?-append_left [] ys i h = absurd (omega arith)
  get_elem?-append_left (x ∷ xs) ys zero h = refl
  get_elem?-append_left (x ∷ xs) ys (suc i) h = get_elem?-append_left xs ys i (omega arith)

  pub drop-cons :
      (i : ℕ) (xs : List A) {x : A} → get_elem? xs i ≡ some x → drop i xs ≡ x ∷ drop (suc i) xs
  drop-cons zero [] h = cc
  drop-cons zero (y ∷ xs) h = ground arith
  drop-cons (suc i) [] h = cc
  drop-cons (suc i) (y ∷ xs) h = drop-cons i xs h

  pub drop-nil : (n : ℕ) → drop n [] ≡ []
  drop-nil zero = refl
  drop-nil (suc n) = refl

  pub take-nil : (n : ℕ) → take n [] ≡ []
  take-nil zero = refl
  take-nil (suc n) = refl

  pub drop-drop : (a b : ℕ) (xs : List A) → drop a (drop b xs) ≡ drop (b + a) xs
  drop-drop a zero xs = ap (λ n. drop n xs) (omega arith)
  drop-drop a (suc b) [] = drop-nil a ∙ sym (drop-nil (suc b + a))
  drop-drop a (suc b) (x ∷ xs) = drop-drop a b xs ∙ ap (λ n. drop n (x ∷ xs)) (suc_add b a)

  pub drop_all : (n : ℕ) (xs : List A) → length xs ≤ n → drop n xs ≡ []
  drop_all zero [] h = refl
  drop_all zero (x ∷ xs) h = absurd (omega arith)
  drop_all (suc n) [] h = refl
  drop_all (suc n) (x ∷ xs) h = drop_all n xs (omega arith)

  pub take-drop : (a b : ℕ) (xs : List A) → take a (drop b (take (b + a) xs)) ≡ take a (drop b xs)
  take-drop a zero xs = ap (λ n. take a (take n xs)) (omega arith) ∙ take_take a xs
    where
      take_take : (n : ℕ) (ys : List A) → take n (take n ys) ≡ take n ys
      take_take zero ys = refl
      take_take (suc n) [] = refl
      take_take (suc n) (y ∷ ys) = ap (◌∷◌ y) (take_take n ys)
  take-drop a (suc b) [] = ap (λ l. take a (drop (suc b) l)) (take-nil (suc b + a))
  take-drop a (suc b) (x ∷ xs) =
      ap (λ n. take a (drop (suc b) (take n (x ∷ xs)))) (sym (suc_add b a)) ∙ take-drop a b xs

  pub take-take : (m n : ℕ) (xs : List A) → m ≤ n → take m (take n xs) ≡ take m xs
  take-take zero n xs h = refl
  take-take (suc m) zero xs h = absurd (omega arith)
  take-take (suc m) (suc n) [] h = refl
  take-take (suc m) (suc n) (x ∷ xs) h = ap (◌∷◌ x) (take-take m n xs (omega arith))

  pub drop-take : (k n : ℕ) (xs : List A) → k ≤ n → drop k (take n xs) ≡ take (n - k) (drop k xs)
  drop-take zero n xs h = ap (λ m. take m xs) (omega arith)
  drop-take (suc k) zero xs h = absurd (omega arith)
  drop-take (suc k) (suc n) [] h = sym (take-nil (suc n - suc k))
  drop-take (suc k) (suc n) (x ∷ xs) h =
      drop-take k n xs (omega arith) ∙ ap (λ m. take m (drop k xs)) (omega arith)

  pub take-set :
      (i : ℕ) (xs : List A) (v : A)
      → i < length xs
      → take (suc i) (set xs i v) ≡ take i xs ++ (v ∷ [])
  take-set i [] v h = absurd (omega arith)
  take-set zero (x ∷ xs) v h = refl
  take-set (suc i) (x ∷ xs) v h = ap (◌∷◌ x) (take-set i xs v (omega arith))

  pub set-length :
      (xs : List A) (y v : A) (ys : List A) → set (xs ++ (y ∷ ys)) (length xs) v ≡ xs ++ (v ∷ ys)
  set-length [] y v ys = refl
  set-length (x ∷ xs) y v ys = ap (◌∷◌ x) (set-length xs y v ys)

  pub get_elem?-length :
      (xs : List A) (y : A) (ys : List A) {i : ℕ}
      → i ≡ length xs
      → get_elem? (xs ++ (y ∷ ys)) i ≡ some y
  get_elem?-length [] y ys e = rw e
  get_elem?-length (x ∷ xs) y ys {i} e = rw e (get_elem?-length xs y ys refl)

  pub replicate-add : (m n : ℕ) (x : A) → replicate (m + n) x ≡ replicate m x ++ replicate n x
  replicate-add zero n x = ap (λ k. replicate k x) (omega arith)
  replicate-add (suc m) n x =
      ap (λ k. replicate k x) (sym (suc_add m n)) ∙ ap (◌∷◌ x) (replicate-add m n x)

  pub All-append {κ} : (P : A → Type κ) (xs ys : List A) → All P xs → All P ys → All P (xs ++ ys)
  All-append P [] ys p q = q
  All-append P (x ∷ xs) ys (h, p) q = (h, All-append P xs ys p q)

  pub All-append_right {κ} : (P : A → Type κ) (xs ys : List A) → All P (xs ++ ys) → All P ys
  All-append_right P [] ys p = p
  All-append_right P (x ∷ xs) ys (h, p) = All-append_right P xs ys p

  pub All-append_left {κ} : (P : A → Type κ) (xs ys : List A) → All P (xs ++ ys) → All P xs
  All-append_left P [] ys p = tt
  All-append_left P (x ∷ xs) ys (h, p) = (h, All-append_left P xs ys p)

  pub store-length :
      (xs : List A) (y v : A) (ys : List A) {i : ℕ}
      → i ≡ length xs
      → store (xs ++ (y ∷ ys)) i v ≡ some (xs ++ (v ∷ ys))
  unfolding store
  store-length xs y v ys {i} e =
      let inside : i < length (xs ++ (y ∷ ys)) = omega (arith, length-append xs (y ∷ ys)) in
      rw ((ltb_iff i (length (xs ++ (y ∷ ys)))).1 inside, e) (ap some (set-length xs y v ys))

  pub store-length_next :
      (xs : List A) (y z v : A) (zs : List A) {i : ℕ}
      → i ≡ suc (length xs)
      → store (xs ++ (y ∷ z ∷ zs)) i v ≡ some (xs ++ (y ∷ v ∷ zs))
  store-length_next xs y z v zs {i} e =
      ap (λ t. store t i v) (sym (append_assoc xs (y ∷ []) (z ∷ zs)))
      ∙ store-length (xs ++ (y ∷ [])) z v zs (omega (arith, length-append xs (y ∷ [])))
      ∙ ap some (append_assoc xs (y ∷ []) (v ∷ zs))

  pub slice-append :
      (xs ys zs : List A) {a b : ℕ}
      → a ≡ length xs
      → b ≡ length xs + length ys
      → slice (xs ++ (ys ++ zs)) a b ≡ some ys
  unfolding slice
  slice-append xs ys zs {a} {b} ea eb =
      let below : a ≤ b = omega arith in
      let inside : b ≤ length (xs ++ (ys ++ zs)) =
        omega (arith, length-append xs (ys ++ zs), length-append ys zs) in
      rw ((leb_iff a b).1 below, (leb_iff b (length (xs ++ (ys ++ zs)))).1 inside)
        (ap some (
          ap (take (b - a)) (drop-append_self a xs (ys ++ zs) (sym ea))
          ∙ take-append_self (b - a) ys zs (omega arith)))

  pub copy_into-append :
      (xs olds zs src : List A) {a : ℕ}
      → a ≡ length xs
      → length olds ≡ length src
      → copy_into (xs ++ (olds ++ zs)) a src ≡ some (xs ++ (src ++ zs))
  unfolding copy_into
  copy_into-append xs olds zs src {a} ea eb =
      let inside : a + length src ≤ length (xs ++ (olds ++ zs)) =
        omega (arith, length-append xs (olds ++ zs), length-append olds zs) in
      rw ((leb_iff (a + length src) (length (xs ++ (olds ++ zs)))).1 inside) (
        ap₂ (λ t u. some (t ++ (src ++ u))) (take-append_self a xs (olds ++ zs) (sym ea))
          (sym (drop-drop (length src) a (xs ++ (olds ++ zs)))
            ∙ ap (drop (length src)) (drop-append_self a xs (olds ++ zs) (sym ea))
            ∙ drop-append_self (length src) olds zs eb))
