-- ===== src/Alvik/Driver/Boot.antt =====
-- `bring_up`, `send` and `flush_uart` of `src/alvik/driver.rs`. The reads that `read_async` finishes
-- before the deadline are a list, `none` for one that timed out or failed; the GPIO levels and the timers
-- are not modelled.
pub mod Handshake
use mathlib.Core.Option
use mathlib.Core.Path.{subst}
use beet_esp.Base.{
  ℕ, zero, suc, ◌+◌, ◌≤◌, ◌<◌, ◌≡◌, refl, sym, ◌∙◌, ap, arith, Bool, true, false, ◌&&◌, ◌||◌,
  Option, none, some, List, [], ◌∷◌, ◌++◌, All, ◌>>=◌,
}
use beet_esp.Base.{Bytes, IsBytes, ◌==◌, if◌then◌else◌, Bool-cases, inl, inr}
use beet_esp.Ucpack.Frame.{Frame, IsFrame}
use beet_esp.Ucpack.Encoder.{Encoder, IsEncoder, wire}
use beet_esp.Ucpack.Decoder
use beet_esp.Ucpack.Decoder.{Decoder, extend, pop, drain}
use beet_esp.Ucpack.Decoder.Buffer.{Holds, new-Holds, extend_lem, grow_all}
use beet_esp.Ucpack.Decoder.Refines.{drain_lem}
use beet_esp.Ucpack.Decoder.Pops.{Pops, stop, more, drain_loop-Pops}
use beet_esp.AsyncBridge.{Channel, send}
use beet_esp.Alvik.Units.{Units}
use beet_esp.Alvik.Protocol.{
  Command, set_leds, set_behavior, set_servo, Status, ack, fw_version, encode, decode,
}
use beet_esp.Alvik.Protocol.Encoding.{code_of, payload_of, encode-wire}
use beet_esp.Alvik.Protocol.Total.{decode-Known}
use beet_esp.Alvik.Driver.Total.{Drains-IsFrame, grow_all-IsBytes}

-- What the handshake has seen.
pub record Boot : Type 0 where
  pub decoder : Decoder
  pub got_ack : Bool
  pub firmware : Option (ℕ × ℕ × ℕ)

-- What `flush_uart` leaves: a new decoder, and nothing seen.
unfoldable pub boot_start : Boot
boot_start = record { decoder = Decoder.new; got_ack = false; firmware = none }

abbrev pub is_some : {A : Type 0} → Option A → Bool
is_some none = false
is_some (some a) = true

module _ (u : Units) where
  -- `match Status::decode(&frame)`.
  abbrev pub on_boot_status : Boot → Option (Status u) → Boot
  on_boot_status b (some (Status.ack code)) = if code == 0 then record b { got_ack = true } else b
  on_boot_status b (some (Status.fw_version major minor patch)) = record b {
    firmware = some (major, minor, patch);
  }
  on_boot_status b _ = b

  -- A turn of `while let Some(frame) = self.decoder.pop()`; `rest` is the turns that follow.
  abbrev pub boot_turn : (Boot → Option Boot) → Boot → Option (Option Frame × Decoder) → Option Boot
  boot_turn rest b none = none
  boot_turn rest b (some (none, e)) = some (record b { decoder = e })
  boot_turn rest b (some (some frame, e)) = do
    status ← decode u frame
    rest (on_boot_status (record b { decoder = e }) status)

  unfoldable pub boot_loop : ℕ → Boot → Option Boot
  boot_loop zero b = none
  boot_loop (suc fuel) b = let rest = boot_loop fuel in boot_turn rest b (pop b.decoder)

  unfoldable pub on_boot_read : Boot → Option Bytes → Option Boot
  on_boot_read b none = some b
  on_boot_read b (some bytes) = do
    decoder ← extend b.decoder bytes
    boot_loop (suc decoder.len) (record b { decoder = decoder })

  -- `while !(got_ack && firmware.is_some()) && Instant::now() < deadline`: the list ends at the deadline.
  unfoldable pub await_boot : List (Option Bytes) → Boot → Option Boot
  await_boot [] b = some b
  await_boot (r ∷ reads) b =
      let later = on_boot_read b r >>= λ b'. await_boot reads b' in
      if b.got_ack && is_some b.firmware then some b else later

  -- `send` of one command after the other: what `write_async` is called with. Its errors are only logged, and
  -- how much of it the UART takes is not looked at.
  unfoldable pub send_all : Encoder → List (Command u) → Option (Encoder × List Bytes)
  send_all e [] = some (e, [])
  send_all e (c ∷ cs) = do
    (e₁, bytes) ← encode u c e
    (e₂, rest) ← send_all e₁ cs
    some (e₂, bytes ∷ rest)

  abbrev pub init_commands : List (Command u)
  init_commands = set_leds 0b0000_0010 ∷ set_behavior 1 ∷ set_behavior 2 ∷ set_servo 90 90 ∷ []

  module _ (chan : Channel (Status u)) where
    abbrev pub link_up : Option (ℕ × ℕ × ℕ) → chan.State → chan.State
    link_up none st = st
    link_up (some (major, minor, patch)) st = (send chan st (Status.fw_version major minor patch)).0

    -- The handshake: what was seen, the encoder, the calls of `write_async`, and the event queue.
    unfoldable pub bring_up :
        Encoder
        → List (Option Bytes)
        → chan.State
        → Option (Boot × Encoder × List Bytes × chan.State)
    bring_up enc reads st = do
      b ← await_boot reads boot_start
      (enc', written) ← send_all enc init_commands
      some (b, enc', written, link_up b.firmware st)

  -- What a frame is decoded as.
  abbrev pub status_of : Frame → Option (Status u)
  status_of f = Option.get_or (decode u f) none

  -- Whether it is the startup ack, of code 0.
  abbrev pub is_ack : Option (Status u) → Bool
  is_ack (some (Status.ack code)) = code == 0
  is_ack _ = false

  abbrev pub version_in : Option (Status u) → Option (ℕ × ℕ × ℕ)
  version_in (some (Status.fw_version major minor patch)) = some (major, minor, patch)
  version_in _ = none

  abbrev pub newer : {A : Type 0} → Option A → Option A → Option A
  newer old none = old
  newer old (some a) = some a

  -- Whether an ack has come, and the last version, after some frames.
  abbrev pub ack_after : Bool → List Frame → Bool
  ack_after a [] = a
  ack_after a (f ∷ fs) = ack_after (is_ack (status_of f) || a) fs

  abbrev pub version_after : Option (ℕ × ℕ × ℕ) → List Frame → Option (ℕ × ℕ × ℕ)
  version_after v [] = v
  version_after v (f ∷ fs) = version_after (newer v (version_in (status_of f))) fs

  -- What a status does to what was seen.
  pub record Took (b : Boot) (status : Option (Status u)) (e : Boot) : Type 0 where
    pub kept : e.decoder ≡ b.decoder
    pub acked : e.got_ack ≡ (is_ack status || b.got_ack)
    pub version : e.firmware ≡ newer b.firmware (version_in status)

  if-Took :
      (b : Boot) (code : ℕ) (t : Bool)
      → (code == 0) ≡ t
      → Took b (some (Status.ack code)) (if t then record b { got_ack = true } else b)
  if-Took b code true h = record {
    kept = refl;
    acked = ap (λ t. t || b.got_ack) (sym h);
    version = refl;
  }
  if-Took b code false h = record {
    kept = refl;
    acked = ap (λ t. t || b.got_ack) (sym h);
    version = refl;
  }

  on_boot_status-Took : (b : Boot) (t : Option (Status u)) → Took b t (on_boot_status b t)
  on_boot_status-Took b (some (Status.ack code)) = if-Took b code (code == 0) refl
  on_boot_status-Took b (some (Status.fw_version x y z)) = record {
    kept = refl;
    acked = refl;
    version = refl;
  }
  on_boot_status-Took b _ = record { kept = refl; acked = refl; version = refl }

  -- The end of a read's frames.
  pub record BootEnds (r : Option Boot) (b : Boot) (fs : List Frame) (last : Decoder) : Type 0 where
    pub end : Boot
    pub returns : r ≡ some end
    pub left : end.decoder ≡ last
    pub acked : end.got_ack ≡ ack_after b.got_ack fs
    pub version : end.firmware ≡ version_after b.firmware fs

  pub boot_loop-BootEnds :
      (fuel : ℕ) (b : Boot) (fs : List Frame) (last : Decoder)
      → All IsFrame fs
      → Pops fuel b.decoder fs last
      → BootEnds (boot_loop fuel b) b fs last
  unfolding boot_loop
  boot_loop-BootEnds zero b fs last ok none_made = elim none_made [ ]
  boot_loop-BootEnds (suc fuel) b [] last ok (stop popped) = record {
    end = record b { decoder = last };
    returns = ap (boot_turn (boot_loop fuel) b) popped;
    left = refl;
    acked = refl;
    version = refl;
  }
  boot_loop-BootEnds (suc fuel) b (f ∷ fs) last (fine, ok) (more {e = e} popped later) =
      let (status, decoded, _) = decode-Known u f fine in
      let b' = on_boot_status (record b { decoder = e }) status in
      let took = on_boot_status-Took (record b { decoder = e }) status in
      let is : status ≡ status_of f = ap (λ o. Option.get_or o none) (sym decoded) in
      let rest =
        boot_loop-BootEnds fuel b' fs last ok
          (subst (λ t. Pops fuel t fs last) (sym took.kept) later) in
      record {
        end = rest.end;
        returns =
            ap (boot_turn (boot_loop fuel) b) popped
            ∙ ap (λ s. s >>= λ t. boot_loop fuel (on_boot_status (record b { decoder = e }) t))
                decoded
            ∙ rest.returns;
        left = rest.left;
        acked =
            rest.acked ∙ ap (λ a. ack_after a fs) (took.acked ∙ ap (λ s. is_ack s || b.got_ack) is);
        version =
            rest.version
            ∙ ap (λ v. version_after v fs)
                (took.version ∙ ap (λ s. newer b.firmware (version_in s)) is);
      }
