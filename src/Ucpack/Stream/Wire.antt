-- ===== src/Ucpack/Stream/Wire.antt =====
-- A frame is found exactly where the bytes of one stand.
use mathlib.Core.List.{append_assoc}
use beet_esp.Base.{ℕ, suc, ◌+◌, ◌-◌, ◌≤◌, ◌<◌, ◌≡◌, ◌≢◌, refl, sym, ◌∙◌, ap, ap₂, arith}
use beet_esp.Base.{◌&&◌, [], ◌∷◌, ◌++◌, Bytes, length, take, drop}
use beet_esp.Base.{◌==◌, if◌then◌else◌, length-append, length-drop}
use beet_esp.Base.{length-take, take-append-drop, take-append_self, drop-append_self}
use beet_esp.Base.{IsBytes}
use beet_esp.Ucpack.Crc.{crc8, crc8_detects}
use beet_esp.Ucpack.Frame.{start_byte, end_byte, payload_max, Frame}
use beet_esp.Ucpack.Encoder.{wire}
use beet_esp.Ucpack.Stream.{skip, found, to_frame, check, scan}

-- The bytes behind the length field, cut into the parts of a frame.
pub record Parts (n : ℕ) (r : Bytes) : Type 0 where
  pub code : ℕ
  pub payload : Bytes
  pub ending : ℕ
  pub sum : ℕ
  pub rest : Bytes
  pub cuts : r ≡ code ∷ (payload ++ (ending ∷ sum ∷ rest))
  pub counts : n ≡ suc (length payload)

pub parts : (n : ℕ) (r : Bytes) → n ≢ 0 → n + 2 ≤ length r → Parts n r
parts n [] ne h = absurd (omega arith)
parts n (code ∷ r) ne h = close (drop (n - 1) r) refl
  where
    close : (ys : Bytes) → drop (n - 1) r ≡ ys → Parts n (code ∷ r)
    close (e ∷ k ∷ rest) at = record {
      code = code;
      payload = take (n - 1) r;
      ending = e;
      sum = k;
      rest = rest;
      cuts = ap (◌∷◌ code) (sym (take-append-drop (n - 1) r) ∙ ap (λ t. take (n - 1) r ++ t) at);
      counts = omega (arith, length-take (n - 1) r);
    }
    close (e ∷ []) at = absurd (omega (arith, length-drop (n - 1) r, ap length at))
    close [] at = absurd (omega (arith, length-drop (n - 1) r, ap length at))

-- `check` on bytes that are cut so.
pub check-parts :
    (code : ℕ) (payload : Bytes) (e k : ℕ) (rest : Bytes)
    → check (suc (length payload)) (code ∷ (payload ++ (e ∷ k ∷ rest))) ≡ (
        if e == end_byte && k == crc8 (code ∷ payload)
        then found (to_frame code payload) rest
        else skip)
unfolding check
check-parts code payload e k rest =
    let n : suc (length payload) - 1 ≡ length payload = omega arith in
    rw (
      n,
      take-append_self (length payload) payload (e ∷ k ∷ rest) refl,
      drop-append_self (length payload) payload (e ∷ k ∷ rest) refl,
    )

pub scan-parts :
    (code : ℕ) (payload : Bytes) (e k : ℕ) (rest : Bytes)
    → length payload ≤ payload_max
    → scan (start_byte ∷ suc (length payload) ∷ code ∷ (payload ++ (e ∷ k ∷ rest))) ≡ (
        if e == end_byte && k == crc8 (code ∷ payload)
        then found (to_frame code payload) rest
        else skip)
unfolding scan
scan-parts code payload e k rest h =
    ground (arith, check-parts code payload e k rest, length-append payload (e ∷ k ∷ rest))

abbrev regroup :
    (code : ℕ) (payload rest : Bytes)
    → wire code payload ++ rest
      ≡ start_byte
        ∷ (1 + length payload)
        ∷ code
        ∷ (payload ++ (end_byte ∷ crc8 (code ∷ payload) ∷ rest))
regroup code payload rest =
    ap (λ t. start_byte ∷ (1 + length payload) ∷ code ∷ t)
      (append_assoc payload (end_byte ∷ crc8 (code ∷ payload) ∷ []) rest)

-- The bytes of a frame are found as that frame, whatever stands behind them.
pub scan-wire :
    (code : ℕ) (payload rest : Bytes)
    → length payload ≤ payload_max
    → scan (wire code payload ++ rest) ≡ found (to_frame code payload) rest
scan-wire code payload rest h =
    ap scan (regroup code payload rest)
    ∙ ap
        (λ n. scan (start_byte ∷ n ∷ code ∷ (payload ++ (end_byte ∷ crc8 (code ∷ payload) ∷ rest))))
        (omega arith)
    ∙ scan-parts code payload end_byte (crc8 (code ∷ payload)) rest h
    ∙ ground arith

-- What a round finds: the frame, its payload, and where it stood.
pub record Found (bs : Bytes) (f : Frame) (rest : Bytes) : Type 0 where
  pub payload : Bytes
  pub fits : length payload ≤ payload_max
  pub is_frame : f ≡ to_frame f.code payload
  pub stands : bs ≡ wire f.code payload ++ rest

found-explicit :
    (code : ℕ) (payload : Bytes) (e k : ℕ) (rest : Bytes) {f : Frame} {r : Bytes}
    → length payload ≤ payload_max
    → scan (start_byte ∷ suc (length payload) ∷ code ∷ (payload ++ (e ∷ k ∷ rest))) ≡ found f r
    → (e ≡ end_byte) × (k ≡ crc8 (code ∷ payload)) × (to_frame code payload ≡ f) × (rest ≡ r)
found-explicit code payload e k rest small h =
    let q = sym (scan-parts code payload e k rest small) ∙ h in
    (ground arith, ground arith, ground arith, ground arith)

found-Parts :
    (n : ℕ) (r : Bytes) {f : Frame} {rest : Bytes}
    → Parts n r
    → n ≤ suc payload_max
    → scan (start_byte ∷ n ∷ r) ≡ found f rest
    → Found (start_byte ∷ n ∷ r) f rest
found-Parts n r {f} {rest} p small h =
    let at = ap₂ (λ m t. scan (start_byte ∷ m ∷ t)) p.counts p.cuts in
    let (e, k, same, left) =
      found-explicit p.code p.payload p.ending p.sum p.rest (omega (arith, p.counts))
        (sym at ∙ h) in
    let coded : p.code ≡ f.code = ap (λ (g : Frame). g.code) same in
    let counted : 1 + length p.payload ≡ n = omega (arith, p.counts) in
    record {
      payload = p.payload;
      fits = omega (arith, p.counts);
      is_frame = sym same ∙ ap (λ c. to_frame c p.payload) coded;
      stands = cc (p.cuts, regroup f.code p.payload rest);
    }

-- The tests that a round passes where it finds a frame.
found-guards :
    (b n : ℕ) (r : Bytes) {f : Frame} {rest : Bytes}
    → scan (b ∷ n ∷ r) ≡ found f rest
    → (b ≡ start_byte) × (n ≢ 0) × (n ≤ suc payload_max) × (n + 2 ≤ length r)
unfolding scan
found-guards b n r h = (ground arith, ground arith, ground arith, ground arith)

-- A round finds a frame only where the bytes of one stand.
pub scan-Found : (bs : Bytes) {f : Frame} {rest : Bytes} → scan bs ≡ found f rest → Found bs f rest
unfolding scan
scan-Found [] h = cc
scan-Found (b ∷ []) h = ground arith
scan-Found (b ∷ n ∷ r) {f} {rest} h =
    let (begins, ne, small, full) = found-guards b n r h in
    rw begins
      (found-Parts n r (parts n r ne full) small (ap (λ t. scan (t ∷ n ∷ r)) (sym begins) ∙ h))

-- A frame whose code or payload has one byte changed on the way is not accepted where it stands:
-- the round drops its first byte and looks on.
pub scan_corrupted :
    (code : ℕ) (payload front back rest : Bytes) (a b : ℕ)
    → length payload ≤ payload_max
    → code ∷ payload ≡ front ++ (a ∷ back)
    → a ≢ b
    → a < 256
    → b < 256
    → IsBytes front
    → IsBytes back
    → scan (
        start_byte
        ∷ suc (length payload)
        ∷ ((front ++ (b ∷ back)) ++ (end_byte ∷ crc8 (code ∷ payload) ∷ rest)))
      ≡ skip
scan_corrupted code payload [] back rest a b h e ne ha hb hf hs =
    let same : payload ≡ back = cc in
    let noticed : crc8 (code ∷ payload) ≢ crc8 (b ∷ back) =
      λ s. ne (crc8_detects [] back a b hf hs ha hb (ap crc8 (sym e) ∙ s)) in
    rw (ap length same) (
      scan-parts b back end_byte (crc8 (code ∷ payload)) rest (omega (arith, ap length same))
      ∙ ground arith)
scan_corrupted code payload (x ∷ front) back rest a b h e ne ha hb hf hs =
    let corrupted = front ++ (b ∷ back) in
    let noticed : crc8 (code ∷ payload) ≢ crc8 (x ∷ corrupted) =
      λ s. ne (crc8_detects (x ∷ front) back a b hf hs ha hb (ap crc8 (sym e) ∙ s)) in
    let long : length payload ≡ length corrupted =
      omega (arith, ap length e, length-append front (a ∷ back), length-append front (b ∷ back)) in
    rw long
      (scan-parts x corrupted end_byte (crc8 (code ∷ payload)) rest (omega arith) ∙ ground arith)
