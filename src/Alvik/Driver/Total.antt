-- ===== src/Alvik/Driver/Total.antt =====
-- The driver on any bytes at all.
use mathlib.Core.Path.{subst}
use beet_esp.Base.{
  ℕ, zero, suc, ◌-◌, ◌≤◌, ◌<◌, ◌≡◌, refl, sym, ◌∙◌, ap, arith, Option, none, some, List, [], ◌∷◌,
  All, ◌>>=◌,
}
use beet_esp.Base.{
  Bytes, IsBytes, replicate, length, length-append, length-replicate, All-append, drop, ◌==◌,
  Bool-cases, inl, inr,
}
use beet_esp.Ucpack.Frame.{Frame, IsFrame, payload_max}
use beet_esp.Ucpack.Stream.{Drains, stop, more, next, to_frame}
use beet_esp.Ucpack.Sound.{next-Popped}
use beet_esp.Ucpack.Decoder.{Decoder, capacity, drain}
use beet_esp.Ucpack.Decoder.Buffer.{Holds, extend_lem, grow, grow_all}
use beet_esp.Ucpack.Decoder.Refines.{drain_lem}
use beet_esp.Ucpack.Decoder.Pops.{Pops, drain_loop-Pops}
use beet_esp.AsyncBridge.{Signal, Channel}
use beet_esp.Alvik.Units.{Units}
use beet_esp.Alvik.Protocol.{Status}
use beet_esp.Alvik.Protocol.Total.{decode-Known}
use beet_esp.Alvik.Driver.{
  StatusSnapshot, apply, Driver, on_applied, on_status, pump_turn, pump_loop, on_read,
}

to_frame-IsFrame :
    (code : ℕ) (payload : Bytes) → length payload ≤ payload_max → IsFrame (to_frame code payload)
to_frame-IsFrame code payload h = record {
  full = omega (
    arith,
    length-append payload (replicate (payload_max - length payload) 0),
    length-replicate {A = ℕ} (payload_max - length payload) 0,
  );
  within = h;
}

next-IsFrame : (bs : Bytes) (f : Frame) (r : Bytes) → next bs ≡ (some f, r) → IsFrame f
next-IsFrame bs f r h =
    let p = next-Popped bs h in
    subst IsFrame (sym p.is_frame) (to_frame-IsFrame f.code p.payload p.fits)

pub Drains-IsFrame : {bs : Bytes} {fs : List Frame} {r : Bytes} → Drains bs fs r → All IsFrame fs
Drains-IsFrame (stop e) = tt
Drains-IsFrame (more e later) = (next-IsFrame _ _ _ e, Drains-IsFrame later)

grow-IsBytes : (bs : Bytes) (y : ℕ) → IsBytes bs → y < 256 → IsBytes (grow bs y)
grow-IsBytes bs y h hy = elim (Bool-cases (length bs == capacity)) [
  | inl full ↦ rw full (All-append _ (drop 1 bs) (y ∷ []) (behind bs h) (hy, tt))
  | inr room ↦ rw room (All-append _ bs (y ∷ []) h (hy, tt))
]
  where
    behind : (xs : Bytes) → IsBytes xs → IsBytes (drop 1 xs)
    behind [] h = tt
    behind (x ∷ xs) (hx, h) = h

pub grow_all-IsBytes : (bs ys : Bytes) → IsBytes bs → IsBytes ys → IsBytes (grow_all bs ys)
grow_all-IsBytes bs [] h hy = h
grow_all-IsBytes bs (y ∷ ys) h (hy, hys) =
    grow_all-IsBytes (grow bs y) ys (grow-IsBytes bs y h hy) hys

module _ (u : Units) (sig : Signal (StatusSnapshot u)) (chan : Channel (Status u)) where
  -- A run that does not panic, and leaves the decoder in a state.
  abbrev Ends : Option (Driver u sig chan) → Decoder → Type 0
  Ends r last = (e : Driver u sig chan) × (r ≡ some e) × (e.decoder ≡ last)

  pump_loop-Ends :
      (fuel : ℕ) (d : Driver u sig chan) (fs : List Frame) (last : Decoder)
      → All IsFrame fs
      → Pops fuel d.decoder fs last
      → Ends (pump_loop u sig chan fuel d) last
  unfolding pump_loop
  pump_loop-Ends zero d fs last ok none_made = elim none_made [ ]
  pump_loop-Ends (suc fuel) d [] last ok (Pops.stop popped) = (
    record d { decoder = last },
    ap (pump_turn u sig chan (pump_loop u sig chan fuel) d) popped,
    refl,
  )
  pump_loop-Ends (suc fuel) d (f ∷ fs) last (fine, ok) (Pops.more {e = e} popped later) =
      let (status, decoded, _) = decode-Known u f fine in
      let d' = on_status u sig chan (record d { decoder = e }) status in
      let kept = on_status-decoder (record d { decoder = e }) status in
      let (end, returns, left) =
        pump_loop-Ends fuel d' fs last ok (subst (λ t. Pops fuel t fs last) (sym kept) later) in
      (
        end,
        ap (pump_turn u sig chan (pump_loop u sig chan fuel) d) popped
            ∙ ap
                (λ s. s >>= λ t.
                  pump_loop u sig chan fuel (on_status u sig chan (record d { decoder = e }) t))
                decoded
            ∙ returns,
        left,
      )
    where
      on_applied-decoder :
          (d : Driver u sig chan) (t : StatusSnapshot u × Option (Status u))
          → (on_applied u sig chan d t).decoder ≡ d.decoder
      on_applied-decoder d (s, none) = refl
      on_applied-decoder d (s, some st) = refl

      on_status-decoder :
          (d : Driver u sig chan) (t : Option (Status u))
          → (on_status u sig chan d t).decoder ≡ d.decoder
      on_status-decoder d none = refl
      on_status-decoder d (some st) = on_applied-decoder d (apply u d.snapshot st)

  -- A read, whatever its bytes: no panic, and a decoder that holds bytes again.
  pub record Survives (d : Driver u sig chan) (bytes : Bytes) : Type 0 where
    pub after : Driver u sig chan
    pub returns : on_read u sig chan d bytes ≡ some after
    pub rest : Bytes
    pub holds : Holds after.decoder rest
    pub rest_bytes : IsBytes rest

  -- Whatever bytes a read brings, in whatever state the decoder was left, the driver takes them in
  -- without a panic, and its decoder is well formed again, ready for the next read.
  pub on_read-Survives :
      (d : Driver u sig chan) (bs ys : Bytes)
      → Holds d.decoder bs
      → IsBytes bs
      → IsBytes ys
      → Survives d ys
  unfolding on_read drain
  on_read-Survives d bs ys held hb hy =
      let (filled, pushed, h') = extend_lem d.decoder bs ys held in
      let run = drain_lem filled (grow_all bs ys) h' (grow_all-IsBytes bs ys hb hy) in
      let calls = drain_loop-Pops (suc filled.len) filled run.frames run.last run.returns in
      let (after, pumped, left) =
        pump_loop-Ends (suc filled.len) (record d { decoder = filled }) run.frames run.last
          (Drains-IsFrame run.drains) calls in
      record {
        after = after;
        returns =
            ap (λ o. o >>= λ e. pump_loop u sig chan (suc e.len) (record d { decoder = e })) pushed
            ∙ pumped;
        rest = run.rest;
        holds = subst (λ t. Holds t run.rest) (sym left) run.left;
        rest_bytes = run.rest_bytes;
      }
