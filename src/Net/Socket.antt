-- ===== src/Net/Socket.antt =====
-- The WebSocket client of `src/net/socket_client.rs`. `Pump` is the frame pump, `Connect` what stands
-- around it: the target, the handshake and the reply to the caller.
use beet_esp.Base.{ℕ, Bool, Option, Bytes, length, ◌≡◌, ◌≤◌, ◌<◌, ◌++◌, none, some}
pub mod Pump
pub mod Frames
pub mod Connect
pub mod Outcome

-- `beet`'s `ws_ext`, its `Message` and `http_ext::find_header_end`. An error is `none`; `parse_frame`
-- gives `some none` where the frame is not whole, and else the message and the bytes it takes.
pub record WsExt (Message : Type 0) : Type 0 where
  pub is_close : Message → Bool
  pub parse_frame : Bytes → Option (Option (Message × ℕ))
  pub encode_frame : Message → Bytes → Bytes
  pub encode_client_key : Bytes → Bytes
  pub encode_handshake_request : Bytes → Bytes → Bytes → Option Bytes
  pub validate_handshake_response : Bytes → Bytes → Bool
  pub find_header_end : Bytes → Option ℕ

-- A whole frame takes at least a byte and no more than there are; what is read later changes neither
-- a frame nor an error that is found in front.
pub record WsLaws {Message : Type 0} (ws : WsExt Message) : Type 0 where
  pub frame_inside :
      (bs : Bytes) {m : Message} {k : ℕ}
      → ws.parse_frame bs ≡ some (some (m, k))
      → (0 < k) × (k ≤ length bs)
  pub frame_stays :
      (bs later : Bytes) {m : Message} {k : ℕ}
      → ws.parse_frame bs ≡ some (some (m, k))
      → ws.parse_frame (bs ++ later) ≡ some (some (m, k))
  pub error_stays :
      (bs later : Bytes) → ws.parse_frame bs ≡ none → ws.parse_frame (bs ++ later) ≡ none
