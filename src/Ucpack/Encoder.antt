-- ===== src/Ucpack/Encoder.antt =====
-- `Encoder` of `src/alvik/ucpack.rs`: the frame writer on a scratch buffer that it reuses.
use mathlib.Core.List.{append_assoc}
use beet_esp.Base.{length-append}
use beet_esp.Base.{ℕ, ◌+◌, ◌%◌, ◌^◌, ◌≤◌, ◌≡◌, refl, sym, ◌∙◌, ap, arith, Option}
use beet_esp.Base.{some, [], ◌∷◌, ◌++◌, Bytes, length, drop, take, slice}
use beet_esp.Base.{store, copy_into, replicate, ◌>>=◌, le_bytes32, length-drop}
use beet_esp.Base.{
  length-take, take-append-drop, store-length, store-length_next, slice-append, copy_into-append,
}
use beet_esp.Ucpack.Crc.{crc8}
use beet_esp.Ucpack.Frame.{start_byte, end_byte, payload_max, frame_max}

pub record Encoder : Type 0 where
  pub buf : Bytes

pub new : Encoder
new = record { buf = replicate frame_max 0 }

-- `frame`: the encoder afterwards and the bytes handed out; `none` is a panic.
unfoldable pub frame : Encoder → ℕ → Bytes → Option (Encoder × Bytes)
frame e code payload = do
  let len = 1 + length payload
  b₀ ← store e.buf 0 start_byte
  b₁ ← store b₀ 1 (len % 2 ^ 8)
  b₂ ← store b₁ 2 code
  b₃ ← copy_into b₂ 3 payload
  b₄ ← store b₃ (2 + len) end_byte
  covered ← slice b₄ 2 (2 + len)
  b₅ ← store b₄ (3 + len) (crc8 covered)
  out ← slice b₅ 0 (len + 4)
  some (record { buf = b₅ }, out)

-- The packers. A float is its 32 bits.
unfoldable pub c1b : Encoder → ℕ → ℕ → Option (Encoder × Bytes)
c1b e code a = frame e code (a ∷ [])

unfoldable pub c2b : Encoder → ℕ → ℕ → ℕ → Option (Encoder × Bytes)
c2b e code a b = frame e code (a ∷ b ∷ [])

unfoldable pub c3b : Encoder → ℕ → ℕ → ℕ → ℕ → Option (Encoder × Bytes)
c3b e code a b c = frame e code (a ∷ b ∷ c ∷ [])

unfoldable pub c1f : Encoder → ℕ → ℕ → Option (Encoder × Bytes)
c1f e code a = frame e code (le_bytes32 a)

unfoldable pub c2f : Encoder → ℕ → ℕ → ℕ → Option (Encoder × Bytes)
c2f e code a b = do
  p₀ ← copy_into (replicate 8 0) 0 (le_bytes32 a)
  payload ← copy_into p₀ 4 (le_bytes32 b)
  frame e code payload

unfoldable pub c3f : Encoder → ℕ → ℕ → ℕ → ℕ → Option (Encoder × Bytes)
c3f e code a b c = do
  p₀ ← copy_into (replicate 12 0) 0 (le_bytes32 a)
  p₁ ← copy_into p₀ 4 (le_bytes32 b)
  payload ← copy_into p₁ 8 (le_bytes32 c)
  frame e code payload

unfoldable pub c1b3f : Encoder → ℕ → ℕ → ℕ → ℕ → ℕ → Option (Encoder × Bytes)
c1b3f e code a x y z = do
  p₀ ← store (replicate 13 0) 0 a
  p₁ ← copy_into p₀ 1 (le_bytes32 x)
  p₂ ← copy_into p₁ 5 (le_bytes32 y)
  payload ← copy_into p₂ 9 (le_bytes32 z)
  frame e code payload

unfoldable pub c2b1f : Encoder → ℕ → ℕ → ℕ → ℕ → Option (Encoder × Bytes)
c2b1f e code a b x = do
  p₀ ← store (replicate 6 0) 0 a
  p₁ ← store p₀ 1 b
  payload ← copy_into p₁ 2 (le_bytes32 x)
  frame e code payload

-- The frame of a code and a payload on the wire.
abbrev pub wire : ℕ → Bytes → Bytes
wire code payload =
    start_byte ∷ (1 + length payload) ∷ code ∷ (payload ++ (end_byte ∷ crc8 (code ∷ payload) ∷ []))

-- The scratch buffer keeps its length.
abbrev pub IsEncoder : Encoder → Type 0
IsEncoder e = length e.buf ≡ frame_max

pub new-IsEncoder : IsEncoder new
unfolding new
new-IsEncoder = refl

-- The scratch buffer, cut where the parts of a frame with `n` bytes of payload go.
record Window (buf : Bytes) (n : ℕ) : Type 0 where
  a : ℕ
  b : ℕ
  c : ℕ
  old : Bytes
  d : ℕ
  e : ℕ
  back : Bytes
  cuts : buf ≡ a ∷ b ∷ c ∷ (old ++ (d ∷ e ∷ back))
  fits : length old ≡ n

window : (buf : Bytes) (n : ℕ) → length buf ≡ frame_max → n ≤ payload_max → Window buf n
window (a ∷ b ∷ c ∷ xs) n full fits = close (drop n xs) refl
  where
    close : (ys : Bytes) → drop n xs ≡ ys → Window (a ∷ b ∷ c ∷ xs) n
    close (d ∷ e ∷ back) at = record {
      a = a;
      b = b;
      c = c;
      old = take n xs;
      d = d;
      e = e;
      back = back;
      cuts = ap (λ t. a ∷ b ∷ c ∷ t) (sym (take-append-drop n xs) ∙ ap (λ t. take n xs ++ t) at);
      fits = omega (arith, length-take n xs);
    }
    close (d ∷ []) at = absurd (omega (arith, length-drop n xs, ap length at))
    close [] at = absurd (omega (arith, length-drop n xs, ap length at))
window (a ∷ b ∷ []) n full fits = absurd (omega arith)
window (a ∷ []) n full fits = absurd (omega arith)
window [] n full fits = absurd (omega arith)

-- `frame` on a buffer that is cut so.
frame-window :
    (code : ℕ) (payload : Bytes) (a b c : ℕ) (old : Bytes) (d e : ℕ) (back : Bytes)
    → length old ≡ length payload
    → length payload ≤ payload_max
    → frame (record { buf = a ∷ b ∷ c ∷ (old ++ (d ∷ e ∷ back)) }) code payload
      ≡ some (record { buf = wire code payload ++ back }, wire code payload)
unfolding frame
frame-window code payload a b c old d e back fits small =
    let s = start_byte in
    let l = 1 + length payload in
    let k = crc8 (code ∷ payload) in
    let byte : l % 2 ^ 8 ≡ l = omega arith in
    let start : Bytes = s ∷ l ∷ code ∷ [] in
    let regroup : s ∷ l ∷ code ∷ (payload ++ (end_byte ∷ k ∷ back)) ≡ wire code payload ++ back =
      ap (λ t. s ∷ l ∷ code ∷ t) (sym (append_assoc payload (end_byte ∷ k ∷ []) back)) in
    rw (
      store-length [] a s (b ∷ c ∷ (old ++ (d ∷ e ∷ back))) {i = 0} refl,
      byte,
      store-length (s ∷ []) b l (c ∷ (old ++ (d ∷ e ∷ back))) {i = 1} refl,
      store-length (s ∷ l ∷ []) c code (old ++ (d ∷ e ∷ back)) {i = 2} refl,
      copy_into-append start old (d ∷ e ∷ back) payload {a = 3} refl fits,
      store-length (s ∷ l ∷ code ∷ payload) d end_byte (e ∷ back) {i = 2 + l} (omega arith),
      slice-append (s ∷ l ∷ []) (code ∷ payload) (end_byte ∷ e ∷ back) {a = 2} {b = 2 + l} refl
          (omega arith),
      store-length_next (s ∷ l ∷ code ∷ payload) end_byte e k back {i = 3 + l} (omega arith),
      regroup,
      slice-append [] (wire code payload) back {a = 0} {b = l + 4} refl
          (omega (arith, length-append payload (end_byte ∷ k ∷ []))),
    )

-- A payload of 24 bytes at most is framed as `wire` says, whatever the scratch buffer held, and the
-- buffer keeps its length.
pub frame_lem :
    (enc : Encoder) (code : ℕ) (payload : Bytes)
    → IsEncoder enc
    → length payload ≤ payload_max
    → (after : Encoder) × (frame enc code payload ≡ some (after, wire code payload))
      × IsEncoder after
frame_lem enc code payload full fits =
    let w = window enc.buf (length payload) full fits in
    let after : Encoder = record { buf = wire code payload ++ w.back } in
    (
      after,
      ap (λ t. frame (record { buf = t }) code payload) w.cuts
          ∙ frame-window code payload w.a w.b w.c w.old w.d w.e w.back w.fits fits,
      omega (
        arith,
        ap length w.cuts,
        length-append w.old (w.d ∷ w.e ∷ w.back),
        w.fits,
        full,
        length-append payload (end_byte ∷ crc8 (code ∷ payload) ∷ w.back),
        length-append (wire code payload) w.back,
        length-append payload (end_byte ∷ crc8 (code ∷ payload) ∷ []),
      ),
    )
