-- ===== src/Ucpack/Decoder/Pops.antt =====
-- A drain as the calls of `pop` that it makes.
use beet_esp.Base.{ℕ, zero, suc, ◌≡◌, refl, sym, ◌∙◌, Option, none, some, List, [], ◌∷◌, ◌>>=◌}
use beet_esp.Ucpack.Frame.{Frame}
use beet_esp.Ucpack.Decoder.{Decoder, pop, drain_loop}

-- Calls of `pop`, fewer than the fuel: each but the last returns a frame.
pub data Pops : ℕ → Decoder → List Frame → Decoder → Type 0 where
  stop : {n : ℕ} {d e : Decoder} → pop d ≡ some (none, e) → Pops (suc n) d [] e
  more :
      {n : ℕ} {d e last : Decoder} {f : Frame} {fs : List Frame}
      → pop d ≡ some (some f, e)
      → Pops n e fs last
      → Pops (suc n) d (f ∷ fs) last

abbrev behind : Frame → Option (List Frame × Decoder) → Option (List Frame × Decoder)
behind f none = none
behind f (some (frames, last)) = some (f ∷ frames, last)

abbrev turn : ℕ → Option (Option Frame × Decoder) → Option (List Frame × Decoder)
turn fuel none = none
turn fuel (some (none, e)) = some ([], e)
turn fuel (some (some frame, e)) = behind frame (drain_loop fuel e)

abbrev bound : Frame → Option (List Frame × Decoder) → Option (List Frame × Decoder)
bound f r = do (frames, last) ← r; some (f ∷ frames, last)

behind-bind : (f : Frame) (r : Option (List Frame × Decoder)) → bound f r ≡ behind f r
behind-bind f none = refl
behind-bind f (some (frames, last)) = refl

drain_loop-turn : (fuel : ℕ) (d : Decoder) → drain_loop (suc fuel) d ≡ turn fuel (pop d)
unfolding drain_loop
drain_loop-turn fuel d = at (pop d)
  where
    at :
        (r : Option (Option Frame × Decoder))
        → (do
          (popped, e) ← r
          elim popped [
            | none ↦ some ([], e)
            | some frame ↦ do (frames, last) ← drain_loop fuel e; some (frame ∷ frames, last)
          ])
          ≡ turn fuel r
    at none = refl
    at (some (none, e)) = refl
    at (some (some f, e)) = behind-bind f (drain_loop fuel e)

abbrev pub Drainage : ℕ → Type 0
Drainage fuel =
    (d : Decoder) (fs : List Frame) (last : Decoder)
    → drain_loop fuel d ≡ some (fs, last)
    → Pops fuel d fs last

later-Pops :
    (fuel : ℕ) (d e : Decoder) (f : Frame) (fs : List Frame) (last : Decoder)
    (r : Option (List Frame × Decoder))
    → Drainage fuel
    → pop d ≡ some (some f, e)
    → drain_loop fuel e ≡ r
    → behind f r ≡ some (fs, last)
    → Pops (suc fuel) d fs last
later-Pops fuel d e f fs last none ih popped at h = cc
later-Pops fuel d e f fs last (some (gs, final)) ih popped at h =
    let same : f ∷ gs ≡ fs = cc h in
    let ends : final ≡ last = cc h in rw (sym same, sym ends) (more popped (ih e gs final at))

turn-Pops :
    (fuel : ℕ) (d : Decoder) (r : Option (Option Frame × Decoder)) (fs : List Frame)
    (last : Decoder)
    → Drainage fuel
    → pop d ≡ r
    → turn fuel r ≡ some (fs, last)
    → Pops (suc fuel) d fs last
turn-Pops fuel d none fs last ih at h = cc
turn-Pops fuel d (some (none, e)) fs last ih at h =
    let same : [] ≡ fs = cc h in let ends : e ≡ last = cc h in rw (sym same, sym ends) (stop at)
turn-Pops fuel d (some (some f, e)) fs last ih at h =
    later-Pops fuel d e f fs last (drain_loop fuel e) ih at refl h

-- A drain that returns has made such calls.
pub drain_loop-Pops : (fuel : ℕ) → Drainage fuel
unfolding drain_loop
drain_loop-Pops zero d fs last h = cc
drain_loop-Pops (suc fuel) d fs last h =
    turn-Pops fuel d (pop d) fs last (drain_loop-Pops fuel) refl (sym (drain_loop-turn fuel d) ∙ h)
