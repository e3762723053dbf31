-- ===== src/Net/Socket/Connect.antt =====
-- `esp_connect`, `resolve_url`, `drive_connection`, `handle_connection`, `run_socket`,
-- `read_handshake_response`, `resolve_endpoint` and `random_bytes` of `src/net/socket_client.rs`. The
-- network, the TLS session, the random number generator and `beet`'s `Url` are parameters.
use beet_esp.Base.{ℕ, zero, suc, ◌-◌, ◌||◌, Bool, true, false, not, ◌&&◌, Option, none, some}
use beet_esp.Base.{
  List, [], ◌∷◌, ◌++◌, map, Bytes, take, drop, min, le_bytes32, ◌==◌, if◌then◌else◌,
}
use beet_esp.Base.{Result, ok, err, and_then, ok_or, codes, contains, trim_matches}
use mathlib.Core.Option
use beet_esp.Net.Http.{Reads}
use beet_esp.Net.Socket.{WsExt}
use beet_esp.Net.Socket.Pump.{
  SocketError, wss_unsupported, no_server, bad_url, no_authority, queue_full, dns_failed,
  no_dns_results, connect_timed_out, connect_failed, tls_failed, bad_request,
  handshake_write_failed, handshake_flush_failed, handshake_read_failed, handshake_closed,
  handshake_refused, Event, read, Pumped, run_duplex,
}

pub record UrlExt (Url : Type 0) : Type 0 where
  pub authority : Url → Option Bytes
  pub is_secure : Url → Bool
  pub host : Url → Option Bytes
  pub port_or_default : Url → Option ℕ
  pub parse : Bytes → Option Url

pub record ConnectJob : Type 0 where
  pub authority : Bytes
  pub host : Bytes
  pub port : ℕ
  pub secure : Bool

module _ {Url : Type 0} (url_ext : UrlExt Url) (secure_feature : Bool) (server : Option Bytes) where
  abbrev pub parsed_target : Bytes → Result SocketError Url
  parsed_target target = ok_or bad_url (
      if contains target (codes "://")
      then url_ext.parse target
      else url_ext.parse (codes "ws://" ++ target))

  abbrev pub target_of : Url → Option Bytes → Result SocketError Url
  target_of url (some authority) = ok url
  target_of url none = and_then (ok_or no_server server) parsed_target

  abbrev pub supported : Url → Result SocketError Url
  supported url =
      if url_ext.is_secure url && not secure_feature then err wss_unsupported else ok url

  -- `server` is `BEET_SOCKET_SERVER`.
  unfoldable pub resolve_url : Url → Result SocketError Url
  resolve_url url = and_then (target_of url (url_ext.authority url)) supported

  abbrev pub is_bracket : ℕ → Bool
  is_bracket c = c == b'[' || c == b']'

  abbrev pub job_of : Url → Bytes → ConnectJob
  job_of url authority = record {
    authority = authority;
    host = trim_matches is_bracket (Option.get_or (url_ext.host url) []);
    port = Option.get_or (url_ext.port_or_default url) (if url_ext.is_secure url then 443 else 80);
    secure = url_ext.is_secure url;
  }

  -- What `esp_connect` does until it queues its job.
  unfoldable pub connect_job : Url → Result SocketError ConnectJob
  connect_job url = and_then (resolve_url url) (λ u.
      and_then (ok_or no_authority (url_ext.authority u)) (λ authority. ok (job_of u authority)))

  -- `call` is `CONNECT_BRIDGE.call`, `none` if the queue is full.
  unfoldable pub esp_connect :
      (ConnectJob → Option (Result SocketError (Unit {0}))) → Url → Result SocketError (Unit {0})
  esp_connect call url =
      and_then (connect_job url) (λ job. and_then (ok_or queue_full (call job)) (λ r. r))

-- `chunks_mut(4)` over `n` bytes, each filled from a word of the generator; `words` are the words to
-- come.
unfoldable pub random_bytes : ℕ → (ℕ → ℕ) → ℕ → Bytes
random_bytes zero words n = []
random_bytes (suc fuel) words n =
    let rest = random_bytes fuel (λ i. words (suc i)) (n - 4) in
    if n == 0 then [] else take (min 4 n) (le_bytes32 (words 0)) ++ rest

-- How `connect` ends.
pub data Dial (A : Type 0) : Type 0 where
  timed_out : Dial A
  refused : Dial A
  dialled : A → Dial A

-- A transport: whether `write_all` and `flush` succeed on the handshake's request, the reads, and what
-- `select` gives in the pump, after the reads that the handshake leaves.
pub record WsTransport (Message : Type 0) : Type 0 where
  pub write_all : Bytes → Bool
  pub flush : Bool
  pub reads : Reads
  pub events : List (Event Message)

pub record SocketNet (Addr Message : Type 0) : Type 0 where
  pub dns_query : Bytes → Option (List Addr)
  pub connect : Addr → ℕ → Dial (WsTransport Message)
  pub connect_tls : WsTransport Message → Option (WsTransport Message)

-- What a connection comes to: whether the reply was sent on the way, the messages for the reader, and
-- the result, if it is over.
pub record Handled (Message : Type 0) : Type 0 where
  pub replied : Bool
  pub inbound : List Message
  pub result : Option (Result SocketError (Unit {0}))

-- What the caller and the reader get.
pub record Driven (Message : Type 0) : Type 0 where
  pub replies : List (Result SocketError (Unit {0}))
  pub stream : List (Result SocketError Message)

module _ {Message : Type 0} (ws : WsExt Message) where
  abbrev pub fails : SocketError → Handled Message
  fails e = record { replied = false; inbound = []; result = some (err e) }

  -- What follows an extended response; `rest` is the turns after it.
  abbrev pub validated :
      Bytes
      → Bytes
      → Reads
      → Option (Result SocketError (Bytes × Reads))
      → Option ℕ
      → Option (Result SocketError (Bytes × Reads))
  validated key response left rest none = rest
  validated key response left rest (some end) =
      if ws.validate_handshake_response (take end response) key
      then some (ok (drop end response, left))
      else some (err handshake_refused)

  -- The bytes behind the headers and the reads to come; `none` while the socket is waited on.
  unfoldable pub read_handshake_response :
      Bytes → Bytes → Reads → Option (Result SocketError (Bytes × Reads))
  read_handshake_response key response [] = none
  read_handshake_response key response (none ∷ left) = some (err handshake_read_failed)
  read_handshake_response key response (some [] ∷ left) = some (err handshake_closed)
  read_handshake_response key response (some (b ∷ bs) ∷ left) =
      let now = response ++ (b ∷ bs) in
      validated key now left (read_handshake_response key now left) (ws.find_header_end now)

  abbrev pub pumping : Pumped Message → Handled Message
  pumping p = record { replied = true; inbound = p.inbound; result = p.result }

  abbrev pub shaken :
      List (Event Message) → Option (Result SocketError (Bytes × Reads)) → Handled Message
  shaken events none = record { replied = false; inbound = []; result = none }
  shaken events (some (err e)) = fails e
  shaken events (some (ok (leftover, left))) =
      pumping (run_duplex ws (map read left ++ events) leftover)

  abbrev pub requested : WsTransport Message → Bytes → Option Bytes → Handled Message
  requested socket key none = fails bad_request
  requested socket key (some request) =
      if not (socket.write_all request)
      then fails handshake_write_failed
      else if not socket.flush
      then fails handshake_flush_failed
      else shaken socket.events (read_handshake_response key [] socket.reads)

  -- `key_bytes` are the sixteen of `random_bytes`.
  unfoldable pub run_socket : WsTransport Message → ConnectJob → Bytes → Handled Message
  run_socket socket job key_bytes =
      let key = ws.encode_client_key key_bytes in
      requested socket key (ws.encode_handshake_request job.authority (codes "/") key)

  module _ {Addr : Type 0} (net : SocketNet Addr Message) (secure_feature : Bool) where
    abbrev pub secured : ConnectJob → Bytes → Option (WsTransport Message) → Handled Message
    secured job key_bytes none = fails tls_failed
    secured job key_bytes (some tls) = run_socket tls job key_bytes

    abbrev pub dialling : ConnectJob → Bytes → Dial (WsTransport Message) → Handled Message
    dialling job key_bytes timed_out = fails connect_timed_out
    dialling job key_bytes refused = fails connect_failed
    dialling job key_bytes (dialled socket) =
        if secure_feature && job.secure
        then secured job key_bytes (net.connect_tls socket)
        else run_socket socket job key_bytes

    abbrev pub endpoint_of : Option (List Addr) → Result SocketError Addr
    endpoint_of none = err dns_failed
    endpoint_of (some []) = err no_dns_results
    endpoint_of (some (addr ∷ addrs)) = ok addr

    -- The address; the port goes with it.
    unfoldable pub resolve_endpoint : Bytes → Result SocketError Addr
    resolve_endpoint host = endpoint_of (net.dns_query host)

    abbrev pub reached : ConnectJob → Bytes → Result SocketError Addr → Handled Message
    reached job key_bytes (err e) = fails e
    reached job key_bytes (ok addr) = dialling job key_bytes (net.connect addr job.port)

    unfoldable pub handle_connection : ConnectJob → Bytes → Handled Message
    handle_connection job key_bytes = reached job key_bytes (resolve_endpoint job.host)

    -- `match (reply.take(), result)`, with what was replied and delivered before.
    abbrev pub finished :
        Bool
        → List (Result SocketError Message)
        → Option (Result SocketError (Unit {0}))
        → Driven Message
    finished false stream none = record { replies = []; stream = stream }
    finished true stream none = record { replies = ok tt ∷ []; stream = stream }
    finished false stream (some (err e)) = record { replies = err e ∷ []; stream = stream }
    finished false stream (some (ok t)) = record { replies = ok tt ∷ []; stream = stream }
    finished true stream (some (err e)) = record {
      replies = ok tt ∷ [];
      stream = stream ++ (err e ∷ []);
    }
    finished true stream (some (ok t)) = record { replies = ok tt ∷ []; stream = stream }

    unfoldable pub drive_connection : ConnectJob → Bytes → Driven Message
    drive_connection job key_bytes =
        let h = handle_connection job key_bytes in finished h.replied (map ok h.inbound) h.result
