-- ===== src/Net/Socket/Pump.antt =====
-- `run_duplex` of `src/net/socket_client.rs`.
use beet_esp.Base.{ℕ, zero, suc, Bool, not, Option, none, some, List, [], ◌∷◌, ◌++◌}
use beet_esp.Base.{Bytes, length, drop, if◌then◌else◌}
use beet_esp.Base.{Result, ok, err}
use beet_esp.Net.Socket.{WsExt}

-- The errors, by the call that fails.
pub data SocketError : Type 0 where
  wss_unsupported : SocketError
  no_server : SocketError
  bad_url : SocketError
  no_authority : SocketError
  queue_full : SocketError
  dns_failed : SocketError
  no_dns_results : SocketError
  connect_timed_out : SocketError
  connect_failed : SocketError
  tls_failed : SocketError
  bad_request : SocketError
  handshake_write_failed : SocketError
  handshake_flush_failed : SocketError
  handshake_read_failed : SocketError
  handshake_closed : SocketError
  handshake_refused : SocketError
  bad_frame : SocketError
  read_failed : SocketError
  write_failed : SocketError
  flush_failed : SocketError

-- What `select` gives: an outcome of `read`, or a message to send, with its mask and whether
-- `write_all` and `flush` succeed on its frame.
pub data Event (Message : Type 0) : Type 0 where
  read : Option Bytes → Event Message
  outgoing : Message → Bytes → Bool → Bool → Event Message

-- How the frames that are buffered end.
pub data Drained (Message : Type 0) : Type 0 where
  failed : List Message → Drained Message
  closed : List Message → Drained Message
  more : List Message → Bytes → Drained Message

-- The messages that reach the reader, the frames that are written, and the result, if it is over.
pub record Pumped (Message : Type 0) : Type 0 where
  pub inbound : List Message
  pub written : List Bytes
  pub result : Option (Result SocketError (Unit {0}))

module _ {Message : Type 0} (ws : WsExt Message) where
  abbrev pub delivered : Message → Drained Message → Drained Message
  delivered m (failed ms) = failed (m ∷ ms)
  delivered m (closed ms) = closed (m ∷ ms)
  delivered m (more ms left) = more (m ∷ ms) left

  -- A turn of `while let Some(..) = parse_frame(..)?`; `rest` is the turns that follow.
  abbrev pub frame_turn :
      (Bytes → Drained Message) → Bytes → Option (Option (Message × ℕ)) → Drained Message
  frame_turn rest buf none = failed []
  frame_turn rest buf (some none) = more [] buf
  frame_turn rest buf (some (some (m, consumed))) =
      let later = rest (drop consumed buf) in
      if ws.is_close m then closed (m ∷ []) else delivered m later

  unfoldable pub frames_loop : ℕ → Bytes → Drained Message
  frames_loop zero buf = more [] buf
  frames_loop (suc fuel) buf = frame_turn (frames_loop fuel) buf (ws.parse_frame buf)

  -- A frame takes at least a byte, so a turn for each byte is enough.
  unfoldable pub drain_frames : Bytes → Drained Message
  drain_frames buf = frames_loop (suc (length buf)) buf

  abbrev pub over : List Message → Result SocketError (Unit {0}) → Pumped Message
  over ms result = record { inbound = ms; written = []; result = some result }

  abbrev pub also : List Message → List Bytes → Pumped Message → Pumped Message
  also ms frames p = record {
    inbound = ms ++ p.inbound;
    written = frames ++ p.written;
    result = p.result;
  }

  -- What follows a `select` that gives a message to send; `later` is the turns after it.
  abbrev pub sent : List Message → Message → Bytes → Bool → Bool → Pumped Message → Pumped Message
  sent ms m mask wrote flushed later =
      if not wrote
      then over ms (err write_failed)
      else if not flushed
      then also ms (ws.encode_frame m mask ∷ []) (over [] (err flush_failed))
      else if ws.is_close m
      then also ms (ws.encode_frame m mask ∷ []) (over [] (ok tt))
      else also ms (ws.encode_frame m mask ∷ []) later

  -- A turn of the loop, once the frames in the buffer are drained; `rest` is the turns that follow,
  -- by the buffer that they begin with.
  abbrev pub pump_turn :
      (Bytes → Pumped Message) → Option (Event Message) → Drained Message → Pumped Message
  pump_turn rest e (failed ms) = over ms (err bad_frame)
  pump_turn rest e (closed ms) = over ms (ok tt)
  pump_turn rest none (more ms left) = record { inbound = ms; written = []; result = none }
  pump_turn rest (some (read none)) (more ms left) = over ms (err read_failed)
  pump_turn rest (some (read (some []))) (more ms left) = over ms (ok tt)
  pump_turn rest (some (read (some (b ∷ bs)))) (more ms left) = also ms [] (rest (left ++ (b ∷ bs)))
  pump_turn rest (some (outgoing m mask wrote flushed)) (more ms left) =
      sent ms m mask wrote flushed (rest left)

  -- The pump, over what its `select`s give; while there is nothing more, it waits.
  unfoldable pub run_duplex : List (Event Message) → Bytes → Pumped Message
  run_duplex [] buf =
      pump_turn (λ t. record { inbound = []; written = []; result = none }) none (drain_frames buf)
  run_duplex (e ∷ es) buf = pump_turn (run_duplex es) (some e) (drain_frames buf)
