-- ===== src/Ucpack/Stream.antt =====
-- The decoder of `src/alvik/ucpack.rs` as a function on the bytes that it holds, oldest first: what
-- one round of its loop does, what `pop` returns, and what a drain returns.
pub mod Wire
pub mod Chunks
use beet_esp.Base.{ℕ, zero, suc, ◌+◌, ◌-◌, ◌≤◌, ◌<◌, ◌≡◌, refl, Bool, true, false, not, ◌&&◌, ◌||◌}
use beet_esp.Base.{Option, none, some, List, [], ◌∷◌, ◌++◌, Bytes, length, take, drop, replicate}
use beet_esp.Base.{get_or, ltb, ◌==◌, if◌then◌else◌}
use beet_esp.Ucpack.Crc.{crc8}
use beet_esp.Ucpack.Frame.{start_byte, end_byte, payload_max, Frame}

-- `wait`: the first bytes may begin a frame, and more are needed. `skip`: no frame begins at the
-- first byte. `found`: a frame, and the bytes behind it.
pub data Scan : Type 0 where
  wait skip : Scan
  found : Frame → Bytes → Scan

-- The frame of a code and a payload, its array filled up with zeros.
abbrev pub to_frame : ℕ → Bytes → Frame
to_frame code payload = record {
  code = code;
  payload = payload ++ replicate (payload_max - length payload) 0;
  len = length payload;
}

-- `n` is the length field and `r` what follows it, `n + 2` bytes at least.
pub check : ℕ → Bytes → Scan
check n [] = skip
check n (code ∷ r) =
    let payload = take (n - 1) r in
    let ending = drop (n - 1) r in
    if get_or ending 0 0 == end_byte && get_or ending 1 0 == crc8 (code ∷ payload)
    then found (to_frame code payload) (drop 2 ending)
    else skip

pub scan_length : Bytes → Scan
unfolding check
scan_length [] = wait
scan_length (n ∷ r) =
    if n == 0 || ltb payload_max (n - 1)
    then skip
    else if ltb (length r) (n + 2)
    then wait
    else check n r

unfoldable pub scan : Bytes → Scan
unfolding scan_length
scan [] = wait
scan (b ∷ r) = if b == start_byte then scan_length r else skip

-- What a round leaves to return: `later` is what the rounds on the next byte return.
abbrev pub resume : Scan → Bytes → Option Frame × Bytes → Option Frame × Bytes
resume wait bs later = (none, bs)
resume skip bs later = later
resume (found f rest) bs later = (some f, rest)

-- `pop`: the frame, and the bytes left.
unfoldable pub next : Bytes → Option Frame × Bytes
next [] = (none, [])
next (b ∷ r) = resume (scan (b ∷ r)) (b ∷ r) (next r)

-- `while let Some(frame) = self.pop()`: the frames, and the bytes left.
pub data Drains : Bytes → List Frame → Bytes → Type 0 where
  stop : {bs r : Bytes} → next bs ≡ (none, r) → Drains bs [] r
  more :
      {bs : Bytes} {f : Frame} {r s : Bytes} {fs : List Frame}
      → next bs ≡ (some f, r)
      → Drains r fs s
      → Drains bs (f ∷ fs) s
