-- ===== src/Net/Socket/Frames.antt =====
-- `run_duplex` of `src/net/socket_client.rs`: the messages that reach the reader are the frames of the
-- bytes that arrive, however these are cut into reads and whatever is sent in between.
use beet_esp.Base.{◌≡◌}
use beet_esp.Base.{true, false, none, some, List, [], ◌∷◌, ◌++◌, Bytes}
use beet_esp.Base.{Result, ok, err}
use beet_esp.Net.Socket.{WsExt, WsLaws}
use beet_esp.Net.Socket.Pump.{
  SocketError, bad_frame, Event, read, outgoing, Drained, failed, closed, more, Pumped, delivered,
  drain_frames,
}

module _ {Message : Type 0} where
  abbrev pub messages_of : Drained Message → List Message
  messages_of (failed ms) = ms
  messages_of (closed ms) = ms
  messages_of (more ms left) = ms

  -- The result once the stream ends.
  abbrev pub result_of : Drained Message → Result SocketError (Unit {0})
  result_of (failed ms) = err bad_frame
  result_of (closed ms) = ok tt
  result_of (more ms left) = ok tt

  -- The bytes of the reads.
  abbrev pub received : List (Event Message) → Bytes
  received [] = []
  received (read none ∷ es) = received es
  received (read (some bs) ∷ es) = bs ++ received es
  received (outgoing m mask wrote flushed ∷ es) = received es

module _ {Message : Type 0} (ws : WsExt Message) (laws : WsLaws ws) where
  -- An event that does not end the connection.
  abbrev pub IsCalm : Event Message → Type 0
  IsCalm (read none) = ⊥
  IsCalm (read (some [])) = ⊥
  IsCalm (read (some (b ∷ bs))) = Unit
  IsCalm (outgoing m mask wrote flushed) =
      (wrote ≡ true) × (flushed ≡ true) × (ws.is_close m ≡ false)

  deliver_all : List Message → Drained Message → Drained Message
  deliver_all [] d = d
  deliver_all (m ∷ ms) d = delivered ws m (deliver_all ms d)

  -- The frames of a buffer that `d` was drained from, once more bytes follow it.
  resume : Bytes → Drained Message → Drained Message
  resume x (failed ms) = failed ms
  resume x (closed ms) = closed ms
  resume x (more ms left) = deliver_all ms (drain_frames ws (left ++ x))

  -- What the reader got and how it ended are the frames of the bytes.
  abbrev Gives : Pumped Message → Drained Message → Type 0
  Gives p d = (p.inbound ≡ messages_of d) × (p.result ≡ some (result_of d))
