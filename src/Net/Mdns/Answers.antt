-- ===== src/Net/Mdns/Answers.antt =====
-- The reads of `src/net/mdns.rs` on bytes that are there: a byte, a word, a label, a name.
use mathlib.Core.List.{append_assoc}
use beet_esp.Base.{ℕ, zero, suc, ◌+◌, ◌-◌, ◌^◌, ◌≤◌, ◌<◌, ◌≡◌, refl, sym, ◌∙◌, ap, ap₂, arith}
use beet_esp.Base.{Bool, true, false, not, some, [], ◌∷◌, ◌++◌, Bytes, length, drop, take}
use beet_esp.Base.{get_elem?, length-append, length-drop, drop-append_self, take-append_self}
use beet_esp.Base.{
  drop-drop, ◌==◌, if◌then◌else◌, bit_and, be_word16, Bool-cases, inl, inr, all_below,
  all_below_sound,
}
use beet_esp.Net.Mdns.Writer.{local_label}
use beet_esp.Net.Mdns.Cursor.{get_u8, get_u16, skip, same_label, part_matches}
use beet_esp.Net.Mdns.Cursor.{name_loop, name_matches, poison}
use beet_esp.Net.Mdns.Built.{IsLabel, name_bytes}

get_elem?-drop :
    (pos : ℕ) (buf : Bytes) {v : ℕ} {rest : Bytes}
    → drop pos buf ≡ v ∷ rest
    → (get_elem? buf pos ≡ some v) × (drop (pos + 1) buf ≡ rest)
get_elem?-drop zero [] h = (cc, cc)
get_elem?-drop zero (x ∷ buf) h = (cc, cc)
get_elem?-drop (suc pos) [] h = (cc, cc)
get_elem?-drop (suc pos) (x ∷ buf) h =
    let (a, b) = get_elem?-drop pos buf h in
    let step : suc pos + 1 ≡ suc (pos + 1) = omega arith in (a, ap (λ n. drop n (x ∷ buf)) step ∙ b)

-- A read of a byte that is there.
pub get_u8-drop :
    (buf : Bytes) (pos : ℕ) {v : ℕ} {rest : Bytes}
    → drop pos buf ≡ v ∷ rest
    → (get_u8 buf pos ≡ (pos + 1, some v)) × (drop (pos + 1) buf ≡ rest)
unfolding get_u8
get_u8-drop buf pos h = let (a, b) = get_elem?-drop pos buf h in (rw a, b)

-- A label that is there is skipped, and is what the comparison sees.
pub skip-drop :
    (buf : Bytes) (pos : ℕ) (xs rest : Bytes)
    → drop pos buf ≡ xs ++ rest
    → 1 ≤ length xs
    → length buf < 2 ^ 32
    → (skip buf (length xs) pos ≡ (pos + length xs, some tt))
      × (drop (pos + length xs) buf ≡ rest)
      × (take (length xs) (drop pos buf) ≡ xs)
unfolding skip
skip-drop buf pos xs rest h ne small =
    let inside : pos + length xs ≤ length buf =
      omega (arith, ap length h, length-drop pos buf, length-append xs rest) in
    (
      ground arith,
      sym (drop-drop (length xs) pos buf)
          ∙ ap (drop (length xs)) h
          ∙ drop-append_self (length xs) xs rest refl,
      ap (take (length xs)) h ∙ take-append_self (length xs) xs rest refl,
    )

-- The first length bytes of a label have their top bits clear.
small_table : all_below 64 (λ n. not (bit_and n 0xc0 == 0xc0)) ≡ true
small_table = refl

small : (n : ℕ) → n < 64 → (bit_and n 0xc0 == 0xc0) ≡ false
small n h = ground (arith, all_below_sound 64 (λ k. not (bit_and k 0xc0 == 0xc0)) small_table n h)

-- A turn of `name_matches` on a label that is there.
name_loop-label :
    (fuel : ℕ) (buf label : Bytes) (idx pos : ℕ) (xs rest : Bytes)
    → drop pos buf ≡ length xs ∷ (xs ++ rest)
    → IsLabel xs
    → length buf < 2 ^ 32
    → (name_loop (suc fuel) buf label idx pos
        ≡ name_loop fuel buf label
            (if part_matches label idx xs then idx + 1 else poison)
            (pos + 1 + length xs))
      × (drop (pos + 1 + length xs) buf ≡ rest)
unfolding name_loop
name_loop-label fuel buf label idx pos xs rest h (lo, hi) fits =
    let (byte, at) = get_u8-drop buf pos h in
    let (skipped, left, seen) = skip-drop buf (pos + 1) xs rest at lo fits in
    let plain = small (length xs) (omega arith) in
    let more : (length xs == 0) ≡ false = ground arith in
    (rw (byte, plain, more, seen, skipped), left)

name_loop-end :
    (fuel : ℕ) (buf label : Bytes) (idx pos : ℕ) (rest : Bytes)
    → drop pos buf ≡ 0 ∷ rest
    → (name_loop (suc fuel) buf label idx pos ≡ (pos + 1, idx == 2)) × (drop (pos + 1) buf ≡ rest)
unfolding name_loop
name_loop-end fuel buf label idx pos rest h =
    let (byte, at) = get_u8-drop buf pos h in (rw byte, at)

-- Two matched labels and the end, or a mismatch, leave the verdict on the first label.
verdict :
    (host label : Bytes)
    → let idx = if same_label label host then 1 else poison in
      ((if part_matches host idx local_label then idx + 1 else poison) == 2) ≡ same_label label host
unfolding part_matches same_label
verdict host label = elim (Bool-cases (same_label label host)) [
  | inl same ↦ rw same
  | inr other ↦ rw other
]

first_index :
    (host label : Bytes)
    → (if part_matches host 0 label then 0 + 1 else poison)
      ≡ (if same_label label host then 1 else poison)
unfolding part_matches
first_index host label = refl

name_loop-name :
    (fuel : ℕ) (buf host label : Bytes) (pos : ℕ) (rest : Bytes)
    → drop pos buf ≡ name_bytes label ++ rest
    → IsLabel label
    → length buf < 2 ^ 32
    → (name_loop (suc (suc (suc fuel))) buf host 0 pos
        ≡ (pos + (length label + 8), same_label label host))
      × (drop (pos + (length label + 8)) buf ≡ rest)
name_loop-name fuel buf host label pos rest h ok fits =
    let tail = 5 ∷ (local_label ++ (0 ∷ rest)) in
    let at = h ∙ ap (◌∷◌ (length label)) (append_assoc label _ rest) in
    let (one, left) = name_loop-label (suc (suc fuel)) buf host 0 pos label tail at ok fits in
    let (two, left') =
      name_loop-label (suc fuel) buf host (if part_matches host 0 label then 0 + 1 else poison)
        (pos + 1 + length label) local_label (0 ∷ rest) left (omega arith) fits in
    let (three, left'') =
      name_loop-end fuel buf host
        (let idx = if part_matches host 0 label then 0 + 1 else poison in
          if part_matches host idx local_label then idx + 1 else poison)
        (pos + 1 + length label + 1 + 5) rest left' in
    let end : pos + 1 + length label + 1 + 5 + 1 ≡ pos + (length label + 8) = omega arith in
    (
      one
          ∙ two
          ∙ three
          ∙ ap₂ (λ (p : ℕ) (b : Bool). (p, b)) end
              (ap (λ idx. (if part_matches host idx local_label then idx + 1 else poison) == 2)
                  (first_index host label)
                ∙ verdict host label),
      rw end at left'',
    )

-- The comparison of a name that is there: its end, and whether the label is the one asked for.
pub name_matches-name :
    (buf host label : Bytes) (pos : ℕ) (rest : Bytes)
    → drop pos buf ≡ name_bytes label ++ rest
    → IsLabel label
    → length buf < 2 ^ 32
    → (name_matches buf host pos ≡ (pos + (length label + 8), same_label label host))
      × (drop (pos + (length label + 8)) buf ≡ rest)
unfolding name_matches
name_matches-name buf host label pos rest h ok fits =
    let fuel : suc (length buf) ≡ suc (suc (suc (length buf - 2))) = omega (
      arith,
      ap length h,
      length-drop pos buf,
      length-append (name_bytes label) rest,
      length-append (length label ∷ label) (5 ∷ b'l' ∷ b'o' ∷ b'c' ∷ b'a' ∷ b'l' ∷ 0 ∷ []),
    ) in
    let (a, b) = name_loop-name (length buf - 2) buf host label pos rest h ok fits in
    (ap (λ n. name_loop n buf host 0 pos) fuel ∙ a, b)

-- A read of a word that is there.
pub get_u16-drop :
    (buf : Bytes) (pos : ℕ) {a b : ℕ} {rest : Bytes}
    → drop pos buf ≡ a ∷ b ∷ rest
    → (get_u16 buf pos ≡ (pos + 2, some (be_word16 a b))) × (drop (pos + 2) buf ≡ rest)
unfolding get_u16
get_u16-drop buf pos h =
    let (x, h₁) = get_u8-drop buf pos h in
    let (y, h₂) = get_u8-drop buf (pos + 1) h₁ in
    let step : pos + 1 + 1 ≡ pos + 2 = omega arith in (rw (x, y, step), rw step at h₂)
