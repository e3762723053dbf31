-- ===== src/Net/Http/Server.antt =====
-- `src/net/http_server.rs`: `read_http` and the turns of `server_loop`. The calls of the socket are
-- a list, in their order; their results are only logged by the source, so none changes what follows.
use beet_esp.Base.{ℕ, ◌+◌, ◌%◌, ◌^◌, Bool, false, Option, none, some, List, [], ◌∷◌, ◌++◌}
use beet_esp.Base.{Bytes, length, take, leb, if◌then◌else◌, codes}
use beet_esp.Net.Http.{Reads, HttpExt}

-- The replies that the loop writes itself.
abbrev pub bad_request : Bytes
bad_request = codes "HTTP/1.1 400 Bad Request\r\ncontent-length: 0\r\nconnection: close\r\n\r\n"

abbrev pub unavailable : Bytes
unavailable =
    codes "HTTP/1.1 503 Service Unavailable\r\ncontent-length: 0\r\nconnection: close\r\n\r\n"

-- `CAP`.
abbrev pub cap : ℕ
cap = 8192

-- A call on the socket.
pub data Call : Type 0 where
  write_all : Bytes → Call
  flush : Call
  close : Call

module _ {Request Response : Type 0} (ext : HttpExt Request Response) where
  -- `buf.len() >= header_end + content_length`, the sum being a `usize` of 32 bits.
  abbrev pub body_in : Bytes → Option ℕ → Bool
  body_in buf none = false
  body_in buf (some header_end) =
      leb ((header_end + ext.parse_content_length (take header_end buf)) % 2 ^ 32) (length buf)

  unfoldable pub is_whole : Bytes → Bool
  is_whole buf = body_in buf (ext.find_header_end buf)

  -- What follows an extended buffer; `later` is the turns after this one.
  abbrev pub read_turn : Bytes → Option (Bytes × Reads) → Reads → Option (Bytes × Reads)
  read_turn buf later rest =
      if is_whole buf
      then some (buf, rest)
      else if leb cap (length buf)
      then some (buf, rest)
      else later

  -- The message, and the outcomes that are left; `none` if the socket is still waited on.
  unfoldable pub read_http : Bytes → Reads → Option (Bytes × Reads)
  read_http buf [] = none
  read_http buf (none ∷ rest) = some (buf, rest)
  read_http buf (some [] ∷ rest) = some (buf, rest)
  read_http buf (some (b ∷ bs) ∷ rest) =
      let now = buf ++ (b ∷ bs) in read_turn now (read_http now rest) rest

  -- The rest of a turn of `server_loop`, by its three `match`es. `call` is what
  -- `SERVER_BRIDGE.call` gives, `none` if the queue is full.
  abbrev pub serialised : Option Bytes → List Call
  serialised none = close ∷ []
  serialised (some bytes) = write_all bytes ∷ flush ∷ close ∷ []

  abbrev pub called : Option Response → List Call
  called none = write_all unavailable ∷ flush ∷ close ∷ []
  called (some response) = serialised (ext.serialize_http_response response)

  abbrev pub parsed : (Request → Option Response) → Option Request → List Call
  parsed call none = write_all bad_request ∷ flush ∷ close ∷ []
  parsed call (some request) = called (call request)

  unfoldable pub answer : (Request → Option Response) → Bytes → List Call
  answer call raw = parsed call (ext.parse_http_request raw)

  abbrev pub served :
      (Request → Option Response) → Option (Bytes × Reads) → List (List Call) → List (List Call)
  served call none later = [] ∷ []
  served call (some (raw, rest)) later = answer call raw ∷ later

  -- The calls on each accepted socket. A connection is `none` if `accept` failed; while one is
  -- waited on, no other is accepted.
  unfoldable pub server_loop :
      List (Option (Reads × (Request → Option Response))) → List (List Call)
  server_loop [] = []
  server_loop (none ∷ connections) = server_loop connections
  server_loop (some (reads, call) ∷ connections) =
      served call (read_http [] reads) (server_loop connections)
