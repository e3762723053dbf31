-- ===== src/Ucpack/Link.antt =====
-- Both directions of the codec together: what one end encodes, the other decodes, whatever the
-- chunks in which the bytes arrive, also behind line noise.
use mathlib.Core.List.{append_assoc, append-nil}
use mathlib.Core.Path.{subst}
use beet_esp.Base.{ℕ, ◌+◌, ◌≤◌, ◌<◌, ◌≡◌, ◌≢◌, refl, sym, ◌∙◌, ap, arith, Option, none, some}
use beet_esp.Base.{List, [], ◌∷◌, ◌++◌, map, Bytes, IsBytes, All, length, length-append}
use beet_esp.Base.{All-append}
use beet_esp.Ucpack.Crc.{crc8-lt}
use beet_esp.Ucpack.Frame.{start_byte, payload_max, Frame}
use beet_esp.Ucpack.Encoder.{Encoder, IsEncoder, frame, frame_lem, wire}
use beet_esp.Ucpack.Stream.{Drains, stop, more, next, scan, to_frame}
use beet_esp.Ucpack.Stream.Wire.{scan-wire}
use beet_esp.Ucpack.Stream.Chunks.{Drains-append}
use beet_esp.Ucpack.Decoder.{Decoder, capacity, extend, pop, drain}
use beet_esp.Ucpack.Decoder.Buffer.{Holds, contents, extend_lem, grow_all-append}
use beet_esp.Ucpack.Decoder.Refines.{pop_lem, drain_lem}

-- A message: a code and a payload that fits a frame, all of it bytes.
pub record Message : Type 0 where
  pub code : ℕ
  pub payload : Bytes

pub record IsMessage (m : Message) : Type 0 where
  pub fits : length m.payload ≤ payload_max
  pub code_byte : m.code < 256
  pub bytes : IsBytes m.payload

abbrev pub wires : List Message → Bytes
wires [] = []
wires (m ∷ ms) = wire m.code m.payload ++ wires ms

abbrev pub frames_of : List Message → List Frame
frames_of = map (λ m. to_frame m.code m.payload)

pub next-wire :
    (code : ℕ) (payload zs : Bytes)
    → length payload ≤ payload_max
    → next (wire code payload ++ zs) ≡ (some (to_frame code payload), zs)
unfolding next
next-wire code payload zs h = rw (scan-wire code payload zs h)

-- Noise with no start byte in it is dropped.
next-noise : (noise zs : Bytes) → All (λ b. b ≢ start_byte) noise → next (noise ++ zs) ≡ next zs
unfolding next scan
next-noise [] zs h = refl
next-noise (b ∷ noise) zs (h, hs) = ground (arith, next-noise noise zs hs)

next-nil : next [] ≡ (none, [])
unfolding next
next-nil = refl

Drains-noise :
    {zs : Bytes} {fs : List Frame} {r : Bytes} (noise : Bytes)
    → All (λ b. b ≢ start_byte) noise
    → Drains zs fs r
    → Drains (noise ++ zs) fs r
Drains-noise noise h (stop e) = stop (next-noise noise _ h ∙ e)
Drains-noise noise h (more e d) = more (next-noise noise _ h ∙ e) d

-- A stream of frames, with noise that holds no start byte in front of it, is drained into exactly
-- these frames, in order.
pub Drains-wires :
    (noise : Bytes) (ms : List Message)
    → All (λ b. b ≢ start_byte) noise
    → All IsMessage ms
    → Drains (noise ++ wires ms) (frames_of ms) []
Drains-wires noise [] h ok = Drains-noise noise h (stop {r = []} next-nil)
Drains-wires noise (m ∷ ms) h (ok, oks) =
    Drains-noise noise h
      (more (next-wire m.code m.payload (wires ms) ok.fits) (Drains-wires [] ms tt oks))

wire-IsBytes : (m : Message) → IsMessage m → IsBytes (wire m.code m.payload)
wire-IsBytes m ok =
    let small = ok.fits in
    let sum = crc8-lt (m.code ∷ m.payload) (ok.code_byte, ok.bytes) in
    (
      omega arith,
      (omega arith, (ok.code_byte, All-append _ m.payload _ ok.bytes (omega arith, (sum, tt)))),
    )

pub wires-IsBytes : (ms : List Message) → All IsMessage ms → IsBytes (wires ms)
wires-IsBytes [] ok = tt
wires-IsBytes (m ∷ ms) (ok, oks) =
    All-append _ (wire m.code m.payload) (wires ms) (wire-IsBytes m ok) (wires-IsBytes ms oks)

-- What a transmission does: the frame is written, its bytes are pushed, and `pop` returns it.
pub record Transmits (enc : Encoder) (dec : Decoder) (noise : Bytes) (m : Message) : Type 0 where
  pub enc' : Encoder
  pub out : Bytes
  pub filled : Decoder
  pub dec' : Decoder
  pub written : frame enc m.code m.payload ≡ some (enc', out)
  pub pushed : extend dec (noise ++ out) ≡ some filled
  pub popped : pop filled ≡ some (some (to_frame m.code m.payload), dec')
  pub encoder_ok : IsEncoder enc'
  pub emptied : Holds dec' []

-- A message that is framed by the encoder, and received by a decoder that holds nothing, is popped
-- as itself, also behind noise with no start byte, as long as both are at most 256 bytes; the
-- decoder is empty again, and nothing panics.
pub pop-extend-frame :
    (enc : Encoder) (dec : Decoder) (noise : Bytes) (m : Message)
    → IsEncoder enc
    → Holds dec []
    → IsMessage m
    → All (λ b. b ≢ start_byte) noise
    → IsBytes noise
    → length noise + length (wire m.code m.payload) ≤ capacity
    → Transmits enc dec noise m
pop-extend-frame enc dec noise m eok held ok h bytes room =
    let (enc', written, eok') = frame_lem enc m.code m.payload eok ok.fits in
    let out = wire m.code m.payload in
    let (filled, pushed, h') = extend_lem dec [] (noise ++ out) held in
    let kept = grow_all-append [] (noise ++ out) (omega (arith, length-append noise out)) in
    let all = All-append _ noise out bytes (wire-IsBytes m ok) in
    let (dec', popped, h'') = pop_lem filled (noise ++ out) (rw kept at h') all in
    let what : next (noise ++ out) ≡ (some (to_frame m.code m.payload), []) =
      next-noise noise out h
      ∙ ap next (sym (append-nil out))
      ∙ next-wire m.code m.payload [] ok.fits in
    record {
      enc' = enc';
      out = out;
      filled = filled;
      dec' = dec';
      written = written;
      pushed = pushed;
      popped = popped ∙ ap (λ (t : Option Frame × Bytes). some (t.0, dec')) what;
      encoder_ok = eok';
      emptied = rw what at h'';
    }

-- A drain has one result.
pub Drains-unique :
    {bs : Bytes} {fs : List Frame} {r : Bytes} {gs : List Frame} {s : Bytes}
    → Drains bs fs r
    → Drains bs gs s
    → (fs ≡ gs) × (r ≡ s)
Drains-unique (stop e) (stop f) =
    let q = sym e ∙ f in (refl, ap (λ (t : Option Frame × Bytes). t.1) q)
Drains-unique (stop e) (more f d) = absurd (cc (ap (λ (t : Option Frame × Bytes). t.0) (sym e ∙ f)))
Drains-unique (more e d) (stop f) = absurd (cc (ap (λ (t : Option Frame × Bytes). t.0) (sym e ∙ f)))
Drains-unique (more {f = f} {r = r} e d) (more {f = g} {r = u} {s = t} {fs = fs} e' d') =
    let q = sym e ∙ e' in
    let same : some f ≡ some g = ap (λ (p : Option Frame × Bytes). p.0) q in
    let left : u ≡ r = sym (ap (λ (p : Option Frame × Bytes). p.1) q) in
    let (fs', rest) = Drains-unique d (subst (λ bs. Drains bs fs t) left d') in (cc, rest)

-- Two chunks pushed and drained one after the other, and the same bytes pushed and drained at once.
pub record Chunked (dec : Decoder) (ys zs : Bytes) : Type 0 where
  pub a : Decoder
  pub first : List Frame
  pub b : Decoder
  pub c : Decoder
  pub second : List Frame
  pub d : Decoder
  pub whole : Decoder
  pub all : List Frame
  pub last : Decoder
  pub push₁ : extend dec ys ≡ some a
  pub drain₁ : drain a ≡ some (first, b)
  pub push₂ : extend b zs ≡ some c
  pub drain₂ : drain c ≡ some (second, d)
  pub push_all : extend dec (ys ++ zs) ≡ some whole
  pub drain_all : drain whole ≡ some (all, last)
  pub same_frames : all ≡ first ++ second
  pub same_left : contents d ≡ contents last

-- As long as the bytes held and received are at most 256, the size of the buffer, a drain
-- after each of two reads gives the frames, and leaves the bytes, of one drain after both.
pub drain-chunks :
    (dec : Decoder) (bs ys zs : Bytes)
    → Holds dec bs
    → IsBytes bs
    → IsBytes ys
    → IsBytes zs
    → length bs + length ys + length zs ≤ capacity
    → Chunked dec ys zs
drain-chunks dec bs ys zs held hb hy hz room =
    let (a, push₁, ha) = extend_lem dec bs ys held in
    let ha' = rw (grow_all-append bs ys (omega arith)) at ha in
    let one = drain_lem a (bs ++ ys) ha' (All-append _ bs ys hb hy) in
    let (c, push₂, hc) = extend_lem one.last one.rest zs one.left in
    let fits : length one.rest + length zs ≤ capacity =
      omega (arith, one.shrinks, length-append bs ys) in
    let hc' = rw (grow_all-append one.rest zs fits) at hc in
    let two = drain_lem c (one.rest ++ zs) hc' (All-append _ one.rest zs one.rest_bytes hz) in
    let (w, push_all, hw) = extend_lem dec bs (ys ++ zs) held in
    let hw' = rw (grow_all-append bs (ys ++ zs) (omega (arith, length-append ys zs))) at hw in
    let three =
      drain_lem w (bs ++ (ys ++ zs)) hw'
        (All-append _ bs (ys ++ zs) hb (All-append _ ys zs hy hz)) in
    let joined = rw (append_assoc bs ys zs) at (Drains-append zs one.drains two.drains) in
    let (frames, rest) = Drains-unique three.drains joined in
    record {
      a = a;
      first = one.frames;
      b = one.last;
      c = c;
      second = two.frames;
      d = two.last;
      whole = w;
      all = three.frames;
      last = three.last;
      push₁ = push₁;
      drain₁ = one.returns;
      push₂ = push₂;
      drain₂ = two.returns;
      push_all = push_all;
      drain_all = three.returns;
      same_frames = frames;
      same_left = two.left.holds ∙ sym rest ∙ sym three.left.holds;
    }
