-- ===== src/Net/Mdns/Cursor.antt =====
-- `Reader` of `src/net/mdns.rs`: its header, and the reads that move its position. A read gives the
-- position afterwards also where it fails, since `name_matches` goes on from there.
use beet_esp.Base.{ℕ, zero, suc, ◌+◌, ◌-◌, ◌^◌, Bool, true, false, ◌&&◌, Option, none, some}
use beet_esp.Base.{[], ◌∷◌, Bytes, length, get_elem?, take, drop, ltb, leb, ◌==◌}
use beet_esp.Base.{if◌then◌else◌, bit_and, be_word16, be_word32}
use beet_esp.Net.Mdns.Writer.{local_label}

pub record Reader : Type 0 where
  pub buf : Bytes
  pub pos : ℕ
  pub flags : ℕ
  pub qdcount : ℕ
  pub ancount : ℕ

-- `Reader::new`: the header's fields, and the position behind the header. The reads cannot fail
-- behind the test.
unfoldable pub new : Bytes → Option Reader
new (b₀ ∷ b₁ ∷ b₂ ∷ b₃ ∷ b₄ ∷ b₅ ∷ b₆ ∷ b₇ ∷ b₈ ∷ b₉ ∷ b₁₀ ∷ b₁₁ ∷ rest) = some (record {
  buf = b₀ ∷ b₁ ∷ b₂ ∷ b₃ ∷ b₄ ∷ b₅ ∷ b₆ ∷ b₇ ∷ b₈ ∷ b₉ ∷ b₁₀ ∷ b₁₁ ∷ rest;
  pos = 12;
  flags = be_word16 b₂ b₃;
  qdcount = be_word16 b₄ b₅;
  ancount = be_word16 b₆ b₇;
})
new _ = none

-- A read at a position.
abbrev pub Read : Type 0 → Type 0
Read A = ℕ → ℕ × Option A

abbrev pub and_then : {A B : Type 0} → ℕ × Option A → (A → Read B) → ℕ × Option B
and_then (p, none) k = (p, none)
and_then (p, some a) k = k a p

-- `?` after a read.
infixl 5 ◌>>=◌ ◌>>◌
abbrev pub ◌>>=◌ : {A B : Type 0} → Read A → (A → Read B) → Read B
◌>>=◌ m k p = and_then (m p) k

abbrev pub ◌>>◌ : {A B : Type 0} → Read A → Read B → Read B
m >> k = m >>= λ _. k

abbrev pub done : {A : Type 0} → A → Read A
done a p = (p, some a)

abbrev pub fail : {A : Type 0} → Read A
fail p = (p, none)

abbrev read_byte : ℕ → Option ℕ → ℕ × Option ℕ
read_byte pos none = (pos, none)
read_byte pos (some v) = (pos + 1, some v)

unfoldable pub get_u8 : Bytes → Read ℕ
get_u8 buf pos = read_byte pos (get_elem? buf pos)

unfoldable pub get_u16 : Bytes → Read ℕ
unfolding get_u8
get_u16 buf = do a ← get_u8 buf; b ← get_u8 buf; done (be_word16 a b)

unfoldable pub get_u32 : Bytes → Read ℕ
unfolding get_u8
get_u32 buf = do
  a ← get_u8 buf
  b ← get_u8 buf
  c ← get_u8 buf
  d ← get_u8 buf
  done (be_word32 a b c d)

-- The position moves also where it leaves the packet; `usize` has 32 bits.
unfoldable pub skip : Bytes → ℕ → Read (Unit {0})
skip buf n pos =
    if leb (2 ^ 32) (pos + n)
    then (pos, none)
    else (if ltb (length buf) (pos + n) then (pos + n, none) else (pos + n, some tt))

-- The loop of `skip_name`, on fuel: each turn that goes on consumes a byte at least.
unfoldable pub skip_name_loop : ℕ → Bytes → Read (Unit {0})
unfolding get_u8 skip
skip_name_loop zero buf = fail
skip_name_loop (suc fuel) buf =
    let rest = skip_name_loop fuel buf in
    do
      len ← get_u8 buf
      if bit_and len 0xc0 == 0xc0
          then (do b ← get_u8 buf; done tt)
          else (if bit_and len 0xc0 == 0x00
              then (if len == 0 then done tt else (do skip buf len; rest))
              else fail)

unfoldable pub skip_name : Bytes → Read (Unit {0})
unfolding skip_name_loop
skip_name buf = skip_name_loop (suc (length buf)) buf

-- `eq_ignore_ascii_case`.
abbrev pub to_lower : ℕ → ℕ
to_lower b = if leb b'A' b && leb b b'Z' then b + 32 else b

-- Labels of one length with the same bytes up to ASCII case.
unfoldable pub same_label : Bytes → Bytes → Bool
same_label [] [] = true
same_label (a ∷ as') (b ∷ bs) = to_lower a == to_lower b && same_label as' bs
same_label _ _ = false

-- `expected[idx]` where `idx < expected.len()`, compared with the label read.
unfoldable pub part_matches : Bytes → ℕ → Bytes → Bool
unfolding same_label
part_matches label zero got = same_label got label
part_matches label (suc zero) got = same_label got local_label
part_matches label (suc (suc idx)) got = false

-- `usize::MAX`.
abbrev pub poison : ℕ
poison = 2 ^ 32 - 1

abbrev on_label : (ℕ → ℕ × Bool) → ℕ × Option (Unit {0}) → ℕ × Bool
on_label rest (q, none) = (q, false)
on_label rest (q, some _) = rest q

-- A turn of the loop of `name_matches` on what `u8` read: a label that does not match poisons the
-- index, and the name is read on. `rest` is the turns that follow.
unfoldable pub name_turn : (ℕ → ℕ → ℕ × Bool) → Bytes → Bytes → ℕ → ℕ × Option ℕ → ℕ × Bool
unfolding get_u8 skip part_matches
name_turn rest buf label idx (p, none) = (p, false)
name_turn rest buf label idx (p, some n) =
    if bit_and n 0xc0 == 0xc0
    then ((get_u8 buf p).0, false)
    else (if n == 0
        then (p, idx == 2)
        else on_label
            (rest (if part_matches label idx (take n (drop p buf)) then idx + 1 else poison))
            (skip buf n p))

-- The loop, on fuel: the position afterwards, and whether the name matched.
unfoldable pub name_loop : ℕ → Bytes → Bytes → ℕ → ℕ → ℕ × Bool
unfolding name_turn
name_loop zero buf label idx pos = (pos, false)
name_loop (suc fuel) buf label idx pos =
    let rest = name_loop fuel buf label in name_turn rest buf label idx (get_u8 buf pos)

unfoldable pub name_matches : Bytes → Bytes → ℕ → ℕ × Bool
unfolding name_loop
name_matches buf label pos = name_loop (suc (length buf)) buf label 0 pos
