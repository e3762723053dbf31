-- ===== src/Net/Http/Authority/Port.antt =====
-- `split_authority` of `src/net/http_client.rs`: the host and the port that it finds.
use beet_esp.Base.{ℕ, ◌+◌, ◌-◌, ◌*◌, ◌^◌, ◌≤◌, ◌<◌, ◌≡◌, ◌≢◌, refl, ◌∙◌, ap, arith}
use beet_esp.Base.{true, false, inl, inr, Bool-cases, none, some, [], ◌∷◌, ◌++◌}
use beet_esp.Base.{Bytes, All, ltb, ◌==◌, if◌then◌else◌}
use mathlib.Core.Option
use beet_esp.Net.Http.Authority.{
  split_at, rsplit_once, to_digit, checked, parse_digits, parse_u16, authority_parts,
  split_authority,
}

-- The number that decimal digits write, after the digits of `acc`.
abbrev pub decimal : ℕ → Bytes → ℕ
decimal acc [] = acc
decimal acc (c ∷ cs) = decimal (acc * 10 + (c - b'0')) cs

abbrev pub IsDigit : ℕ → Type 0
IsDigit c = (b'0' ≤ c) × (c ≤ b'9')

decimal-le : (acc : ℕ) (cs : Bytes) → acc ≤ decimal acc cs
decimal-le acc [] = omega arith
decimal-le acc (c ∷ cs) = omega (arith, decimal-le (acc * 10 + (c - b'0')) cs)

-- The checks of the additions refuse just the numbers that do not fit.
parse_digits_lem :
    (acc : ℕ) (cs : Bytes)
    → acc < 2 ^ 16
    → All IsDigit cs
    → parse_digits acc cs ≡ checked (decimal acc cs)
unfolding parse_digits
parse_digits_lem acc [] fits h = ground arith
parse_digits_lem acc (c ∷ cs) fits ((low, high), h) =
    let digit : to_digit c ≡ some (c - b'0') = ground arith in
    let larger = decimal-le (acc * 10 + (c - b'0')) cs in
    elim (Bool-cases (ltb (acc * 10) (2 ^ 16))) [
      | inl e ↦ elim (Bool-cases (ltb (acc * 10 + (c - b'0')) (2 ^ 16))) [
        | inl f ↦ rw (digit, e, f) (parse_digits_lem (acc * 10 + (c - b'0')) cs (ground arith) h)
        | inr f ↦
            let over : ltb (decimal (acc * 10 + (c - b'0')) cs) (2 ^ 16) ≡ false = ground arith in
            rw (digit, e, f, over) refl
      ]
      | inr e ↦
          let over : ltb (decimal (acc * 10 + (c - b'0')) cs) (2 ^ 16) ≡ false = ground arith in
          rw (digit, e, over) refl
    ]

parse_u16_lem :
    (c : ℕ) (cs : Bytes) → All IsDigit (c ∷ cs) → parse_u16 (c ∷ cs) ≡ checked (decimal 0 (c ∷ cs))
unfolding parse_u16
parse_u16_lem c [] h = parse_digits_lem 0 (c ∷ []) (omega arith) h
parse_u16_lem c (d ∷ ds) ((low, high), h) =
    let unsigned : (c == b'+') ≡ false = ground arith in
    rw unsigned (parse_digits_lem 0 (c ∷ d ∷ ds) (omega arith) ((low, high), h))

rsplit_once-none : (c : ℕ) (xs : Bytes) → All (λ x. x ≢ c) xs → rsplit_once c xs ≡ none
unfolding rsplit_once
rsplit_once-none c [] h = refl
rsplit_once-none c (x ∷ xs) (differs, h) =
    let other : (x == c) ≡ false = ground arith in
    ap (split_at c x xs) (rsplit_once-none c xs h) ∙ rw other refl

rsplit_once-last :
    (c : ℕ) (xs ys : Bytes) → All (λ y. y ≢ c) ys → rsplit_once c (xs ++ (c ∷ ys)) ≡ some (xs, ys)
unfolding rsplit_once
rsplit_once-last c [] ys h =
    let same : (c == c) ≡ true = ground arith in
    ap (split_at c c ys) (rsplit_once-none c ys h) ∙ rw same refl
rsplit_once-last c (x ∷ xs) ys h = ap (split_at c x (xs ++ (c ∷ ys))) (rsplit_once-last c xs ys h)

digits_differ : (cs : Bytes) → All IsDigit cs → All (λ c. c ≢ b':') cs
digits_differ [] h = tt
digits_differ (c ∷ cs) ((low, high), h) = (λ e. omega arith, digits_differ cs h)

get_or-checked :
    (n default_port : ℕ)
    → Option.get_or (checked n) default_port ≡ (if ltb n (2 ^ 16) then n else default_port)
get_or-checked n default_port = elim (Bool-cases (ltb n (2 ^ 16))) [
  | inl e ↦ rw e refl
  | inr e ↦ rw e refl
]

-- An authority without a colon is the host, with the default port.
pub split_authority-host :
    (host : Bytes) (default_port : ℕ)
    → All (λ c. c ≢ b':') host
    → split_authority host default_port ≡ (host, default_port)
unfolding split_authority
split_authority-host host default_port h =
    ap (authority_parts host default_port) (rsplit_once-none b':' host h)

-- Decimal digits after the last colon are the port if their number is below 2^16, and give way to the
-- default port if it is not; the host is all that stands before that colon, colons included.
pub split_authority-port :
    (host : Bytes) (c : ℕ) (cs : Bytes) (default_port : ℕ)
    → All IsDigit (c ∷ cs)
    → split_authority (host ++ (b':' ∷ c ∷ cs)) default_port
      ≡ (host, if ltb (decimal 0 (c ∷ cs)) (2 ^ 16) then decimal 0 (c ∷ cs) else default_port)
unfolding split_authority
split_authority-port host c cs default_port h =
    ap (authority_parts (host ++ (b':' ∷ c ∷ cs)) default_port)
      (rsplit_once-last b':' host (c ∷ cs) (digits_differ (c ∷ cs) h))
    ∙ ap (λ p. (host, Option.get_or p default_port)) (parse_u16_lem c cs h)
    ∙ ap (λ p. (host, p)) (get_or-checked (decimal 0 (c ∷ cs)) default_port)
