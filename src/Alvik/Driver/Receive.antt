-- ===== src/Alvik/Driver/Receive.antt =====
-- From the carrier's messages to the pipes that the systems read.
use beet_esp.Base.{ℕ, ◌≡◌, Option, some, List, [], ◌∷◌, ◌++◌}
use beet_esp.Base.{Bool, true, false, Bytes, if◌then◌else◌}
use beet_esp.Ucpack.Link.{Message}
use beet_esp.Ucpack.Decoder.Buffer.{Holds}
use beet_esp.AsyncBridge.{Signal, Channel}
use beet_esp.AsyncBridge.Pipes.{SignalLaws, ChannelLaws}
use beet_esp.Alvik.Units.{Units}
use beet_esp.Alvik.Protocol.{Status}
use beet_esp.Alvik.Protocol.Decoding.{
  Reading, touch, motion, behavior, ack, fw_version, meaning, reading_code, reading_payload,
}
use beet_esp.Alvik.Driver.{StatusSnapshot, apply, Driver, on_read}

-- The messages that go to the event queue; the others are coalesced.
abbrev pub is_discrete : Reading → Bool
is_discrete (touch b) = true
is_discrete (motion b) = true
is_discrete (behavior b) = true
is_discrete (ack b) = true
is_discrete (fw_version a b c) = true
is_discrete _ = false

abbrev pub reading_message : Reading → Message
reading_message r = record { code = reading_code r; payload = reading_payload r }

module _ (u : Units) where
  -- The snapshot after some readings.
  abbrev pub snapshot_after : StatusSnapshot u → List Reading → StatusSnapshot u
  snapshot_after s [] = s
  snapshot_after s (r ∷ rs) = snapshot_after (apply u s (meaning u r)).0 rs

  -- The discrete messages among them, in order.
  abbrev pub discrete_of : List Reading → List (Status u)
  discrete_of [] = []
  discrete_of (r ∷ rs) = if is_discrete r then meaning u r ∷ discrete_of rs else discrete_of rs

  -- What is pending on the signal: the last snapshot, if a reading was coalesced at all.
  abbrev pub published :
      Option (StatusSnapshot u) → StatusSnapshot u → List Reading → Option (StatusSnapshot u)
  published o s [] = o
  published o s (r ∷ rs) =
      let s' = (apply u s (meaning u r)).0 in published (if is_discrete r then o else some s') s' rs

module _ (u : Units) (sig : Signal (StatusSnapshot u)) (chan : Channel (Status u)) where
  module _ (n : ℕ) (sl : SignalLaws sig) (cl : ChannelLaws chan n) where
    -- What the pipes and the snapshot hold after some readings.
    pub record Absorbed (d e : Driver u sig chan) (rs : List Reading) : Type 0 where
      pub snapshots : e.snapshot ≡ snapshot_after u d.snapshot rs
      pub enqueued : cl.contents e.events ≡ cl.contents d.events ++ discrete_of u rs
      pub latest : sl.pending e.state ≡ published u (sl.pending d.state) d.snapshot rs

    -- A read, and what it left.
    pub record Receives (d : Driver u sig chan) (bytes : Bytes) (rs : List Reading) : Type 0 where
      pub after : Driver u sig chan
      pub returns : on_read u sig chan d bytes ≡ some after
      pub absorbed : Absorbed d after rs
      pub emptied : Holds after.decoder []
