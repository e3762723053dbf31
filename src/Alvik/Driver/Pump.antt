-- ===== src/Alvik/Driver/Pump.antt =====
-- The loop that pops frames and takes them in, on frames of the carrier.
use beet_esp.Base.{
  ℕ, zero, suc, ◌≡◌, refl, ◌∙◌, ap, Option, none, some, List, [], ◌∷◌, map, All, ◌>>=◌,
}
use beet_esp.Ucpack.Decoder.{Decoder}
use beet_esp.Ucpack.Decoder.Pops.{Pops, stop, more}
use beet_esp.AsyncBridge.{Signal, Channel}
use beet_esp.Alvik.Units.{Units}
use beet_esp.Alvik.Protocol.{Status}
use beet_esp.Alvik.Protocol.Decoding.{Reading, IsReading, meaning, reading_frame, decode-reading}
use beet_esp.Alvik.Driver.{
  StatusSnapshot, apply, Driver, on_applied, on_status, pump_turn, pump_loop,
}

module _ (u : Units) (sig : Signal (StatusSnapshot u)) (chan : Channel (Status u)) where
  -- What readings do to the driver, one after the other.
  abbrev pub absorb : Driver u sig chan → List Reading → Driver u sig chan
  absorb d [] = d
  absorb d (r ∷ rs) = absorb (on_status u sig chan d (some (meaning u r))) rs

  -- The decoder is not among what a status changes.
  on_applied-decoder :
      (d : Driver u sig chan) (e : Decoder) (t : StatusSnapshot u × Option (Status u))
      → on_applied u sig chan (record d { decoder = e }) t
        ≡ record (on_applied u sig chan d t) { decoder = e }
  on_applied-decoder d e (s, none) = refl
  on_applied-decoder d e (s, some st) = refl

  absorb-decoder :
      (d : Driver u sig chan) (e : Decoder) (rs : List Reading)
      → absorb (record d { decoder = e }) rs ≡ record (absorb d rs) { decoder = e }
  absorb-decoder d e [] = refl
  absorb-decoder d e (r ∷ rs) =
      ap (λ t. absorb t rs) (on_applied-decoder d e (apply u d.snapshot (meaning u r)))
      ∙ absorb-decoder (on_applied u sig chan d (apply u d.snapshot (meaning u r))) e rs

  -- On frames of readings, the loop does not panic, and takes in the readings in order.
  pub pump_loop-Pops :
      (fuel : ℕ) (d : Driver u sig chan) (rs : List Reading) (last : Decoder)
      → All IsReading rs
      → Pops fuel d.decoder (map reading_frame rs) last
      → pump_loop u sig chan fuel d ≡ some (record (absorb d rs) { decoder = last })
  unfolding pump_loop
  pump_loop-Pops zero d rs last ok none_made = elim none_made [ ]
  pump_loop-Pops (suc fuel) d [] last ok (stop popped) =
      ap (pump_turn u sig chan (pump_loop u sig chan fuel) d) popped
  pump_loop-Pops (suc fuel) d (r ∷ rs) last (fine, ok) (more {e = e} popped later) =
      let d' = on_status u sig chan (record d { decoder = e }) (some (meaning u r)) in
      let keeps : d' ≡ record (on_status u sig chan d (some (meaning u r))) { decoder = e } =
        on_applied-decoder d e (apply u d.snapshot (meaning u r)) in
      ap (pump_turn u sig chan (pump_loop u sig chan fuel) d) popped
      ∙ ap
          (λ s. s >>= λ status.
            pump_loop u sig chan fuel (on_status u sig chan (record d { decoder = e }) status))
          (decode-reading u r fine)
      ∙ ap (pump_loop u sig chan fuel) keeps
      ∙ pump_loop-Pops fuel (record (on_status u sig chan d (some (meaning u r))) { decoder = e })
          rs last ok later
      ∙ ap (λ (t : Driver u sig chan). some (record t { decoder = last }))
          (absorb-decoder (on_status u sig chan d (some (meaning u r))) e rs)
