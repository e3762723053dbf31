-- ===== src/Net/Http/Authority.antt =====
-- `split_authority` of `src/net/http_client.rs`, with `rsplit_once` and the `u16` parser of Rust's
-- `core`, which it calls.
use beet_esp.Base.{ℕ, suc, ◌+◌, ◌-◌, ◌*◌, ◌^◌, ◌≡◌, refl, Bool, true, false, ◌&&◌}
use beet_esp.Base.{Option, none, some, List, [], ◌∷◌, ◌++◌, Bytes, ◌>>=◌}
use beet_esp.Base.{leb, ltb, ◌==◌, if◌then◌else◌}
use mathlib.Core.Option
pub mod Port

-- `rsplit_once(c)`: the parts before and after the last `c`.
abbrev pub split_at : ℕ → ℕ → Bytes → Option (Bytes × Bytes) → Option (Bytes × Bytes)
split_at c x xs none = if x == c then some ([], xs) else none
split_at c x xs (some (before, after)) = some (x ∷ before, after)

unfoldable pub rsplit_once : ℕ → Bytes → Option (Bytes × Bytes)
rsplit_once c [] = none
rsplit_once c (x ∷ xs) = split_at c x xs (rsplit_once c xs)

-- A decimal digit.
abbrev pub to_digit : ℕ → Option ℕ
to_digit c = if leb b'0' c && leb c b'9' then some (c - b'0') else none

-- `u16::checked_mul(10)` and `checked_add`.
abbrev pub checked : ℕ → Option ℕ
checked n = if ltb n (2 ^ 16) then some n else none

unfoldable pub parse_digits : ℕ → Bytes → Option ℕ
parse_digits acc [] = some acc
parse_digits acc (c ∷ cs) =
    to_digit c >>= λ d. checked (acc * 10) >>= λ tens. checked (tens + d) >>= λ n. parse_digits n cs

-- `str::parse::<u16>`: no sign but an optional `+`, at least one digit.
unfoldable pub parse_u16 : Bytes → Option ℕ
parse_u16 [] = none
parse_u16 (c ∷ []) = parse_digits 0 (c ∷ [])
parse_u16 (c ∷ d ∷ ds) = if c == b'+' then parse_digits 0 (d ∷ ds) else parse_digits 0 (c ∷ d ∷ ds)

abbrev pub authority_parts : Bytes → ℕ → Option (Bytes × Bytes) → Bytes × ℕ
authority_parts authority default_port none = (authority, default_port)
authority_parts authority default_port (some (host, port)) =
    (host, Option.get_or (parse_u16 port) default_port)

unfoldable pub split_authority : Bytes → ℕ → Bytes × ℕ
split_authority authority default_port =
    authority_parts authority default_port (rsplit_once b':' authority)
