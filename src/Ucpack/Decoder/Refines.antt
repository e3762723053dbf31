-- ===== src/Ucpack/Decoder/Refines.antt =====
-- The loop of `pop` on the array does what `Stream` says on the bytes held, never panics, and ends.
use beet_esp.Base.{ℕ, zero, suc, ◌≤◌, ◌<◌, ◌≡◌, refl, ap, arith}
use beet_esp.Base.{Option, none, some, List, [], ◌∷◌}
use beet_esp.Base.{Bytes, IsBytes, length}
use beet_esp.Base.{length-append}
use beet_esp.Base.{All-append_right}
use beet_esp.Ucpack.Frame.{Frame}
use beet_esp.Ucpack.Encoder.{wire}
use beet_esp.Ucpack.Stream.{Scan, wait, skip, found, scan, next, resume}
use beet_esp.Ucpack.Stream.{Drains, stop, more}
use beet_esp.Ucpack.Stream.Wire.{scan-Found, Found}
use beet_esp.Ucpack.Decoder.{Decoder, finish}
use beet_esp.Ucpack.Decoder.{round, pop_loop, pop, drain_loop, drain}
use beet_esp.Ucpack.Decoder.Buffer.{Holds, Holds-length}
use beet_esp.Ucpack.Decoder.Rounds.{Meets, round-Meets, round-Meets-stop}

-- What `pop_loop` is to do on a state that holds `bs`, where `later` is what `next` says.
abbrev Pops : ℕ → Decoder → Option Frame × Bytes → Type 0
Pops fuel d result = (e : Decoder) × (pop_loop fuel d ≡ some (result.0, e)) × Holds e result.1

pop_loop_step :
    (fuel : ℕ) (d : Decoder) (b : ℕ) (bs : Bytes) (v : Scan)
    → Holds d (b ∷ bs)
    → Meets v d (b ∷ bs) (round d)
    → ((d' : Decoder) → Holds d' bs → Pops fuel d' (next bs))
    → Pops (suc fuel) d (resume v (b ∷ bs) (next bs))
unfolding pop_loop
pop_loop_step fuel d b bs wait h m ih = (d, ground arith, h)
pop_loop_step fuel d b bs skip h (d', r, h') ih =
    let (e, popped, held) = ih d' h' in (e, rw r popped, held)
pop_loop_step fuel d b bs (found f rest) h (d', r, h') ih = (d', ground arith, h')

pop_loop_lem :
    (fuel : ℕ) (d : Decoder) (bs : Bytes)
    → Holds d bs
    → IsBytes bs
    → length bs < fuel
    → Pops fuel d (next bs)
unfolding next
pop_loop_lem zero d bs h bytes enough = absurd (omega arith)
pop_loop_lem (suc fuel) d [] h bytes enough =
    let stops : round d ≡ some (finish none d) = round-Meets-stop d h in
    (d, unfold pop_loop in ground arith, h)
pop_loop_lem (suc fuel) d (b ∷ bs) h bytes enough =
    pop_loop_step fuel d b bs (scan (b ∷ bs)) h (round-Meets d (b ∷ bs) h bytes)
      (λ d' h'. pop_loop_lem fuel d' bs h' bytes.1 (omega arith))

-- `pop` never panics and ends: it returns what `next` says of the bytes held, and holds what is
-- left.
pub pop_lem :
    (d : Decoder) (bs : Bytes)
    → Holds d bs
    → IsBytes bs
    → (e : Decoder) × (pop d ≡ some ((next bs).0, e)) × Holds e (next bs).1
unfolding pop
pop_lem d bs h bytes = pop_loop_lem (suc d.len) d bs h bytes (omega (arith, Holds-length bs h))

-- What a round leaves: bytes, and fewer where it found a frame.
abbrev Leaves : Bytes → Option Frame × Bytes → Type 0
Leaves bs result =
    IsBytes result.1
    × (length result.1 ≤ length bs)
    × ((f : Frame) → result.0 ≡ some f → length result.1 < length bs)

Found-Leaves :
    (bs : Bytes) (f : Frame) (rest : Bytes)
    → IsBytes bs
    → Found bs f rest
    → Leaves bs (some f, rest)
Found-Leaves bs f rest h w =
    let shorter : length rest < length bs =
      omega (arith, ap length w.stands, length-append (wire f.code w.payload) rest) in
    (
      All-append_right _ (wire f.code w.payload) rest (rw w.stands at h),
      omega arith,
      λ g e. shorter,
    )

resume-Leaves :
    (v : Scan) (b : ℕ) (bs : Bytes)
    → scan (b ∷ bs) ≡ v
    → IsBytes (b ∷ bs)
    → Leaves bs (next bs)
    → Leaves (b ∷ bs) (resume v (b ∷ bs) (next bs))
resume-Leaves wait b bs e h ih = (h, omega arith, λ f eq. cc)
resume-Leaves skip b bs e h (ok, le, lt) = (ok, omega arith, λ f eq. omega (arith, lt f eq))
resume-Leaves (found f rest) b bs e h ih = Found-Leaves (b ∷ bs) f rest h (scan-Found (b ∷ bs) e)

next-Leaves : (bs : Bytes) → IsBytes bs → Leaves bs (next bs)
unfolding next
next-Leaves [] h = (tt, omega arith, λ f eq. cc)
next-Leaves (b ∷ bs) h = resume-Leaves (scan (b ∷ bs)) b bs refl h (next-Leaves bs h.1)

-- A drain of a state that holds `bs`.
pub record Drained (r : Option (List Frame × Decoder)) (bs : Bytes) : Type 0 where
  pub frames : List Frame
  pub last : Decoder
  pub rest : Bytes
  pub returns : r ≡ some (frames, last)
  pub drains : Drains bs frames rest
  pub left : Holds last rest
  pub rest_bytes : IsBytes rest
  pub shrinks : length rest ≤ length bs

abbrev Drainable : ℕ → Type 0
Drainable fuel =
    (d : Decoder) (bs : Bytes)
    → Holds d bs
    → IsBytes bs
    → length bs < fuel
    → Drained (drain_loop fuel d) bs

drain_loop_step :
    (fuel : ℕ) (d : Decoder) (bs : Bytes) (result : Option Frame × Bytes) (e : Decoder)
    → next bs ≡ result
    → pop d ≡ some (result.0, e)
    → Holds e result.1
    → Leaves bs result
    → length bs < suc fuel
    → Drainable fuel
    → Drained (drain_loop (suc fuel) d) bs
unfolding drain_loop
drain_loop_step fuel d bs (none, r) e n popped h (ok, le, lt) enough ih = record {
  frames = [];
  last = e;
  rest = r;
  returns = ground arith;
  drains = stop n;
  left = h;
  rest_bytes = ok;
  shrinks = le;
}
drain_loop_step fuel d bs (some f, r) e n popped h (ok, le, lt) enough ih =
    let later = ih e r h ok (omega (arith, lt f refl)) in
    record {
      frames = f ∷ later.frames;
      last = later.last;
      rest = later.rest;
      returns = ground (arith, later.returns);
      drains = more n later.drains;
      left = later.left;
      rest_bytes = later.rest_bytes;
      shrinks = omega (arith, later.shrinks, le);
    }

drain_loop_lem : (fuel : ℕ) → Drainable fuel
drain_loop_lem zero d bs h bytes enough = absurd (omega arith)
drain_loop_lem (suc fuel) d bs h bytes enough =
    let (e, popped, held) = pop_lem d bs h bytes in
    drain_loop_step fuel d bs (next bs) e refl popped held (next-Leaves bs bytes) enough
      (drain_loop_lem fuel)

-- A drain never panics and ends, and gives the frames that the specification drains from the bytes
-- held.
pub drain_lem : (d : Decoder) (bs : Bytes) → Holds d bs → IsBytes bs → Drained (drain d) bs
unfolding drain
drain_lem d bs h bytes = drain_loop_lem (suc d.len) d bs h bytes (omega (arith, Holds-length bs h))
