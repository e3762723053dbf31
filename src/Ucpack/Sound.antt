-- ===== src/Ucpack/Sound.antt =====
-- What `Decoder::pop` of `src/alvik/ucpack.rs` may return, and a run of `Encoder` into it.
use beet_esp.Base.{
  ℕ, suc, ◌+◌, ◌≤◌, ◌<◌, ◌≡◌, ◌≢◌, refl, sym, ◌∙◌, ap, ap₂, arith, Option, none, some,
}
use beet_esp.Base.{
  List, [], ◌∷◌, ◌++◌, Bytes, IsBytes, All, length, length-append, ◌>>=◌, All-append,
}
use beet_esp.Ucpack.Crc.{crc8}
use beet_esp.Ucpack.Frame.{start_byte, end_byte, payload_max, Frame}
use beet_esp.Ucpack.Encoder.{Encoder, IsEncoder, frame, frame_lem, wire}
use beet_esp.Ucpack.Stream.{Scan, wait, skip, found, next, scan, resume, to_frame}
use beet_esp.Ucpack.Stream.Wire.{scan-Found, scan_corrupted}
use beet_esp.Ucpack.Decoder.{Decoder, capacity, extend, pop, drain}
use beet_esp.Ucpack.Decoder.Buffer.{Holds, contents, extend_lem, grow_all-append}
use beet_esp.Ucpack.Decoder.Refines.{pop_lem, drain_lem}
use beet_esp.Ucpack.Link.{
  Message, IsMessage, wires, frames_of, wires-IsBytes, Drains-wires, Drains-unique,
}

-- A frame, and where it was among the bytes held: behind some that were dropped, in front of those
-- that are left.
pub record Popped (bs : Bytes) (f : Frame) (left : Bytes) : Type 0 where
  pub dropped : Bytes
  pub payload : Bytes
  pub fits : length payload ≤ payload_max
  pub is_frame : f ≡ to_frame f.code payload
  pub stood : bs ≡ dropped ++ (wire f.code payload ++ left)

resume-Popped :
    (s : Scan) (b : ℕ) (bs : Bytes) (later : Option Frame × Bytes) {f : Frame} {r : Bytes}
    → scan (b ∷ bs) ≡ s
    → (later ≡ (some f, r) → Popped bs f r)
    → resume s (b ∷ bs) later ≡ (some f, r)
    → Popped (b ∷ bs) f r
resume-Popped wait b bs later at ih h = absurd (cc (ap (λ (t : Option Frame × Bytes). t.0) h))
resume-Popped skip b bs later at ih h =
    let p = ih h in
    record {
      dropped = b ∷ p.dropped;
      payload = p.payload;
      fits = p.fits;
      is_frame = p.is_frame;
      stood = ap (◌∷◌ b) p.stood;
    }
resume-Popped (found g s) b bs later {f} {r} at ih h =
    let same : found g s ≡ found f r = ap (λ (t : Option Frame × Bytes). found_of t g s) h in
    let p = scan-Found (b ∷ bs) (at ∙ same) in
    record {
      dropped = [];
      payload = p.payload;
      fits = p.fits;
      is_frame = p.is_frame;
      stood = p.stands;
    }
  where
    found_of : Option Frame × Bytes → Frame → Bytes → Scan
    found_of (none, r) g s = found g s
    found_of (some f, r) g s = found f r

pub next-Popped : (bs : Bytes) {f : Frame} {r : Bytes} → next bs ≡ (some f, r) → Popped bs f r
unfolding next
next-Popped [] h = absurd (cc (ap (λ (t : Option Frame × Bytes). t.0) h))
next-Popped (b ∷ bs) h = resume-Popped (scan (b ∷ bs)) b bs (next bs) refl (λ e. next-Popped bs e) h

next-skip : (b : ℕ) (bs : Bytes) → scan (b ∷ bs) ≡ skip → next (b ∷ bs) ≡ next bs
unfolding next
next-skip b bs h = ap (λ s. resume s (b ∷ bs) (next bs)) h

-- `pop` returns nothing but a frame that stands whole, with its start byte, its length, its end byte
-- and its checksum, among the bytes held; what is left is what stood behind it.
pub pop-Popped :
    (d e : Decoder) (bs : Bytes) (f : Frame)
    → Holds d bs
    → IsBytes bs
    → pop d ≡ some (some f, e)
    → Popped bs f (contents e)
pop-Popped d e bs f h bytes popped =
    let (e', result, held) = pop_lem d bs h bytes in
    let same : (some ((next bs).0, e')) ≡ some (some f, e) = sym result ∙ popped in
    let frame_is : (next bs).0 ≡ some f = cc same in
    let final : e' ≡ e = cc same in
    let left : (next bs).1 ≡ contents e = sym held.holds ∙ ap contents final in
    next-Popped bs (ap₂ (λ (o : Option Frame) (r : Bytes). (o, r)) frame_is left)

-- What follows the start byte of a frame of `code` and `payload`, with `body` in their place.
abbrev pub corrupted : ℕ → Bytes → Bytes → Bytes → Bytes
corrupted code payload body rest =
    suc (length payload) ∷ (body ++ (end_byte ∷ crc8 (code ∷ payload) ∷ rest))

-- A frame in which one byte of code and payload was changed on the way is not popped where it
-- stands: on a decoder that holds it first, `pop` returns, and leaves, what the bytes behind its start
-- byte give.
pub pop-corrupted :
    (d : Decoder) (code : ℕ) (payload front back rest : Bytes) (a b : ℕ)
    → length payload ≤ payload_max
    → code ∷ payload ≡ front ++ (a ∷ back)
    → a ≢ b
    → a < 256
    → b < 256
    → IsBytes front
    → IsBytes back
    → Holds d (start_byte ∷ corrupted code payload (front ++ (b ∷ back)) rest)
    → IsBytes (corrupted code payload (front ++ (b ∷ back)) rest)
    → (e : Decoder) × (pop d
        ≡ some ((next (corrupted code payload (front ++ (b ∷ back)) rest)).0, e))
      × Holds e (next (corrupted code payload (front ++ (b ∷ back)) rest)).1
pop-corrupted d code payload front back rest a b fits parts differ ha hb hf hk h bytes =
    let bs = corrupted code payload (front ++ (b ∷ back)) rest in
    let dropped : next (start_byte ∷ bs) ≡ next bs =
      next-skip start_byte bs
        (scan_corrupted code payload front back rest a b fits parts differ ha hb hf hk) in
    rw dropped at (pop_lem d (start_byte ∷ bs) h (omega arith, bytes))

-- The encoder on messages one after the other; `none` is a panic.
abbrev pub encode_all : Encoder → List Message → Option (Encoder × Bytes)
encode_all e [] = some (e, [])
encode_all e (m ∷ ms) = do
  (e₁, bs) ← frame e m.code m.payload
  (e₂, rest) ← encode_all e₁ ms
  some (e₂, bs ++ rest)

encode_all-wires :
    (e : Encoder) (ms : List Message)
    → IsEncoder e
    → All IsMessage ms
    → (e' : Encoder) × (encode_all e ms ≡ some (e', wires ms))
encode_all-wires e [] ok all = (e, refl)
encode_all-wires e (m ∷ ms) ok (fine, all) =
    let (e₁, one, ok₁) = frame_lem e m.code m.payload ok fine.fits in
    let (e₂, others) = encode_all-wires e₁ ms ok₁ all in (e₂, rw (one, others))

-- What a run does: the messages are written, their bytes received behind noise, and all frames popped.
pub record Delivers (enc : Encoder) (dec : Decoder) (noise : Bytes) (ms : List Message)
    : Type 0 where
  pub enc' : Encoder
  pub out : Bytes
  pub filled : Decoder
  pub dec' : Decoder
  pub written : encode_all enc ms ≡ some (enc', out)
  pub pushed : extend dec (noise ++ out) ≡ some filled
  pub drained : drain filled ≡ some (frames_of ms, dec')
  pub emptied : Holds dec' []

-- Messages that are framed one after the other on one encoder, and received together by a decoder
-- that holds nothing, are popped as exactly these frames, in order, also behind noise with no start
-- byte, as long as noise and frames are at most 256 bytes; the decoder is empty again, and nothing panics.
pub drain-extend-frames :
    (enc : Encoder) (dec : Decoder) (noise : Bytes) (ms : List Message)
    → IsEncoder enc
    → Holds dec []
    → All IsMessage ms
    → All (λ b. b ≢ start_byte) noise
    → IsBytes noise
    → length noise + length (wires ms) ≤ capacity
    → Delivers enc dec noise ms
drain-extend-frames enc dec noise ms eok held ok h bytes room =
    let (enc', written) = encode_all-wires enc ms eok ok in
    let out = wires ms in
    let (filled, pushed, h') = extend_lem dec [] (noise ++ out) held in
    let kept = grow_all-append [] (noise ++ out) (omega (arith, length-append noise out)) in
    let all = All-append _ noise out bytes (wires-IsBytes ms ok) in
    let run = drain_lem filled (noise ++ out) (rw kept at h') all in
    let (frames, rest) = Drains-unique run.drains (Drains-wires noise ms h ok) in
    record {
      enc' = enc';
      out = out;
      filled = filled;
      dec' = run.last;
      written = written;
      pushed = pushed;
      drained = run.returns ∙ ap (λ fs. some (fs, run.last)) frames;
      emptied = rw rest at run.left;
    }
