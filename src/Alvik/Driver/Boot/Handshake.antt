-- ===== src/Alvik/Driver/Boot/Handshake.antt =====
-- The handshake of `src/alvik/driver.rs` on any reads.
use mathlib.Core.Path.{subst}
use beet_esp.Base.{
  suc, ◌≡◌, refl, sym, ◌∙◌, ap, Bool, ◌&&◌, Option, none, some, List, [], ◌∷◌, ◌++◌, All, ◌>>=◌,
}
use beet_esp.Base.{Bytes, IsBytes, Bool-cases, inl, inr}
use beet_esp.Ucpack.Encoder.{Encoder, IsEncoder, wire}
use beet_esp.Ucpack.Decoder.{Decoder, drain}
use beet_esp.Ucpack.Decoder.Buffer.{Holds, new-Holds, extend_lem, grow_all}
use beet_esp.Ucpack.Decoder.Refines.{drain_lem}
use beet_esp.Ucpack.Decoder.Pops.{drain_loop-Pops}
use mathlib.Core.List.{append-nil}
use beet_esp.Base.{ℕ, ◌<◌, false, true, length}
use beet_esp.Ucpack.Frame.{Frame}
use beet_esp.Ucpack.Stream.{Drains}
use beet_esp.AsyncBridge.{Channel}
use beet_esp.AsyncBridge.Pipes.{ChannelLaws, send-room}
use beet_esp.Alvik.Driver.Boot.{ack_after, version_after}
use beet_esp.Alvik.Units.{Units}
use beet_esp.Alvik.Protocol.{Command, Status}
use beet_esp.Alvik.Protocol.Encoding.{code_of, payload_of, encode-wire}
use beet_esp.Alvik.Driver.Total.{Drains-IsFrame, grow_all-IsBytes}
use beet_esp.Alvik.Driver.Boot.{
  Boot, is_some, boot_loop, on_boot_read, await_boot, send_all, init_commands,
}
use beet_esp.Alvik.Driver.Boot.{boot_start, link_up, bring_up, boot_loop-BootEnds}

-- A read that brought bytes, or none.
abbrev pub IsRead : Option Bytes → Type 0
IsRead none = Unit {0}
IsRead (some bytes) = IsBytes bytes

-- A decoder that is well formed and holds bytes.
pub record Ready (d : Decoder) : Type 0 where
  pub rest : Bytes
  pub holds : Holds d rest
  pub rest_bytes : IsBytes rest

-- The initial commands: the illuminator on, behaviours 1 and 2, both servos at 90.
abbrev pub init_writes : List Bytes
init_writes =
    wire b'L' (2 ∷ []) ∷ wire b'B' (1 ∷ []) ∷ wire b'B' (2 ∷ []) ∷ wire b'S' (90 ∷ 90 ∷ []) ∷ []

module _ (u : Units) where
  -- What is heard in the reads, from the bytes held: each read brings the frames that stand in the bytes by
  -- then; it ends once both the ack and a version have been heard, or at the deadline.
  pub data Heard
      : Bytes
        → Bool
        → Option (ℕ × ℕ × ℕ)
        → List (Option Bytes)
        → Bool
        → Option (ℕ × ℕ × ℕ)
        → Type 0 where
    complete :
        {rest : Bytes} {a : Bool} {v : Option (ℕ × ℕ × ℕ)} {reads : List (Option Bytes)}
        → (a && is_some v) ≡ true
        → Heard rest a v reads a v
    deadline : {rest : Bytes} {a : Bool} {v : Option (ℕ × ℕ × ℕ)} → Heard rest a v [] a v
    nothing :
        {rest : Bytes} {a a' : Bool} {v v' : Option (ℕ × ℕ × ℕ)} {reads : List (Option Bytes)}
        → (a && is_some v) ≡ false
        → Heard rest a v reads a' v'
        → Heard rest a v (none ∷ reads) a' v'
    brought :
        {rest rest' : Bytes} {a a' : Bool} {v v' : Option (ℕ × ℕ × ℕ)} {reads : List (Option Bytes)}
        {bytes : Bytes} (fs : List Frame)
        → (a && is_some v) ≡ false
        → Drains (grow_all rest bytes) fs rest'
        → Heard rest' (ack_after u a fs) (version_after u v fs) reads a' v'
        → Heard rest a v (some bytes ∷ reads) a' v'

  record Reads (b : Boot) (rest : Bytes) (bytes : Bytes) (r : Option Boot) : Type 0 where
    end : Boot
    returns : r ≡ some end
    frames : List Frame
    ready : Ready end.decoder
    drains : Drains (grow_all rest bytes) frames ready.rest
    acked : end.got_ack ≡ ack_after u b.got_ack frames
    version : end.firmware ≡ version_after u b.firmware frames

  on_boot_read-Reads :
      (b : Boot) (ys : Bytes) (ready : Ready b.decoder)
      → IsBytes ys
      → Reads b ready.rest ys (on_boot_read u b (some ys))
  unfolding on_boot_read drain
  on_boot_read-Reads b ys ready ok =
      let bs = ready.rest in
      let (filled, pushed, h') = extend_lem b.decoder bs ys ready.holds in
      let run = drain_lem filled (grow_all bs ys) h' (grow_all-IsBytes bs ys ready.rest_bytes ok) in
      let calls = drain_loop-Pops (suc filled.len) filled run.frames run.last run.returns in
      let looped =
        boot_loop-BootEnds u (suc filled.len) (record b { decoder = filled }) run.frames run.last
          (Drains-IsFrame run.drains) calls in
      record {
        end = looped.end;
        returns =
            ap (λ o. o >>= λ e. boot_loop u (suc e.len) (record b { decoder = e })) pushed
            ∙ looped.returns;
        frames = run.frames;
        ready = record {
          rest = run.rest;
          holds = subst (λ t. Holds t run.rest) (sym looped.left) run.left;
          rest_bytes = run.rest_bytes;
        };
        drains = run.drains;
        acked = looped.acked;
        version = looped.version;
      }

  record Awaited (b : Boot) (rest : Bytes) (reads : List (Option Bytes)) (r : Option Boot)
      : Type 0 where
    end : Boot
    returns : r ≡ some end
    ready : Ready end.decoder
    heard : Heard rest b.got_ack b.firmware reads end.got_ack end.firmware

  await_boot-Awaited :
      (b : Boot) (reads : List (Option Bytes)) (ready : Ready b.decoder)
      → All IsRead reads
      → Awaited b ready.rest reads (await_boot u reads b)
  unfolding await_boot on_boot_read
  await_boot-Awaited b [] ready ok = record {
    end = b;
    returns = refl;
    ready = ready;
    heard = deadline;
  }
  await_boot-Awaited b (none ∷ reads) ready (fine, ok) =
      elim (Bool-cases (b.got_ack && is_some b.firmware)) [
        | inl done ↦ record { end = b; returns = rw done; ready = ready; heard = complete done }
        | inr waiting ↦
            let later = await_boot-Awaited b reads ready ok in
            record {
              end = later.end;
              returns = rw waiting later.returns;
              ready = later.ready;
              heard = nothing waiting later.heard;
            }
      ]
  await_boot-Awaited b (some bytes ∷ reads) ready (fine, ok) =
      elim (Bool-cases (b.got_ack && is_some b.firmware)) [
        | inl done ↦ record { end = b; returns = rw done; ready = ready; heard = complete done }
        | inr waiting ↦
            let read = on_boot_read-Reads b bytes ready fine in
            let later = await_boot-Awaited read.end reads read.ready ok in
            record {
              end = later.end;
              returns =
                  rw waiting
                    (ap (λ o. o >>= λ t. await_boot u reads t) read.returns ∙ later.returns);
              ready = later.ready;
              heard = brought read.frames waiting read.drains (
                  subst
                    (λ v.
                      Heard read.ready.rest (ack_after u b.got_ack read.frames) v reads
                        later.end.got_ack later.end.firmware)
                    read.version
                    (subst
                      (λ a.
                        Heard read.ready.rest a read.end.firmware reads later.end.got_ack
                          later.end.firmware)
                      read.acked later.heard));
            }
      ]

  abbrev writes : List (Command u) → List Bytes
  writes [] = []
  writes (c ∷ cs) = wire (code_of c) (payload_of u c) ∷ writes cs

  send_all-writes :
      (e : Encoder) (cs : List (Command u))
      → IsEncoder e
      → (e' : Encoder) × (send_all u e cs ≡ some (e', writes cs)) × IsEncoder e'
  unfolding send_all
  send_all-writes e [] ok = (e, refl, ok)
  send_all-writes e (c ∷ cs) ok =
      let (e₁, one, ok₁) = encode-wire u c e ok in
      let (e₂, others, ok₂) = send_all-writes e₁ cs ok₁ in (e₂, rw (one, others), ok₂)

  -- The message about a version.
  abbrev pub version_message : Option (ℕ × ℕ × ℕ) → List (Status u)
  version_message none = []
  version_message (some (major, minor, patch)) = Status.fw_version major minor patch ∷ []

  module _ (chan : Channel (Status u)) (n : ℕ) (laws : ChannelLaws chan n) where
    link_up-queued :
        (v : Option (ℕ × ℕ × ℕ)) (st : chan.State)
        → length (laws.contents st) < n
        → laws.contents (link_up u chan v st) ≡ laws.contents st ++ version_message v
    link_up-queued none st room = sym (append-nil (laws.contents st))
    link_up-queued (some (a, b, c)) st room =
        let (_, queued) = send-room chan n laws st (Status.fw_version a b c) room in queued

    -- A handshake that has ended.
    pub record BroughtUp (enc : Encoder) (reads : List (Option Bytes)) (st : chan.State)
        : Type 0 where
      pub seen : Boot
      pub enc' : Encoder
      pub events : chan.State
      pub returns : bring_up u chan enc reads st ≡ some (seen, enc', init_writes, events)
      pub heard : Heard [] false none reads seen.got_ack seen.firmware
      pub queued : laws.contents events ≡ laws.contents st ++ version_message seen.firmware
      pub encoder_ok : IsEncoder enc'
      pub ready : Ready seen.decoder

    -- Whatever the reads bring before the deadline, if anything, the handshake ends without a panic; it has
    -- heard the frames that stand in the bytes of the reads, until an ack of code 0 and a version were
    -- among them; it hands the frames of the four initial commands to the UART, queues the last
    -- version that was heard, if one was, in an event queue with room, and leaves the codec ready for the link.
    pub bring_up_lem :
        (enc : Encoder) (reads : List (Option Bytes)) (st : chan.State)
        → IsEncoder enc
        → All IsRead reads
        → length (laws.contents st) < n
        → BroughtUp enc reads st
    unfolding bring_up boot_start
    bring_up_lem enc reads st ok all room =
        let start : Ready boot_start.decoder = record {
          rest = [];
          holds = new-Holds;
          rest_bytes = tt;
        } in
        let awaited = await_boot-Awaited boot_start reads start all in
        let (enc', sent, ok') = send_all-writes enc (init_commands u) ok in
        record {
          seen = awaited.end;
          enc' = enc';
          events = link_up u chan awaited.end.firmware st;
          returns = rw (awaited.returns, sent);
          heard = awaited.heard;
          queued = link_up-queued awaited.end.firmware st room;
          encoder_ok = ok';
          ready = awaited.ready;
        }
