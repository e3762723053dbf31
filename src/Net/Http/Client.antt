-- ===== src/Net/Http/Client.antt =====
-- `src/net/http_client.rs`: `esp_send`, `exchange`, `exchange_on` and `send_request`, the split of an
-- authority being `Net/Http/Authority.antt`. The network, the TLS session and the mDNS resolver are
-- parameters; the build's features are a record.
use beet_esp.Base.{ℕ, Bool, not, ◌&&◌, Option, none, some, List, [], ◌∷◌, ◌++◌, Bytes}
use beet_esp.Base.{if◌then◌else◌, codes, ends_with}
use beet_esp.Base.{Result, ok, err, and_then, ok_or}
use beet_esp.Net.Http.{Reads, HttpExt}
use beet_esp.Net.Http.Authority.{split_authority}

-- The Cargo features that the client asks for.
pub record Features : Type 0 where
  pub secure : Bool
  pub mdns : Bool

-- The errors, by the call that fails.
pub data HttpError : Type 0 where
  https_unsupported : HttpError
  no_host : HttpError
  body_failed : HttpError
  encode_failed : HttpError
  queue_full : HttpError
  mdns_failed : HttpError
  dns_failed : HttpError
  no_dns_results : HttpError
  connect_failed : HttpError
  tls_failed : HttpError
  write_failed : HttpError
  flush_failed : HttpError
  bad_response : HttpError

pub record ClientJob : Type 0 where
  pub host : Bytes
  pub port : ℕ
  pub secure : Bool
  pub bytes : Bytes

-- What the client asks a `Request` for: its scheme, its authority, and itself with its body in memory.
pub record RequestParts (Request : Type 0) : Type 0 where
  pub is_secure : Request → Bool
  pub authority : Request → Bytes
  pub into_bytes : Request → Option Request

-- A connected transport: whether `write_all` succeeds on the given bytes, whether `flush` does, and
-- what is read after they are written.
pub record Transport : Type 0 where
  pub write_all : Bytes → Bool
  pub flush : Bool
  pub reads : Bytes → Reads

-- The network: `mdns::resolve`, `Stack::dns_query`, `TcpSocket::connect` and `tls_client::connect`.
pub record ClientNet (Addr : Type 0) : Type 0 where
  pub resolve : Bytes → Option Addr
  pub dns_query : Bytes → Option (List Addr)
  pub connect : Addr → ℕ → Option Transport
  pub connect_tls : Transport → Option Transport

module _ {Request Response : Type 0} (ext : HttpExt Request Response) where
  -- `raw`, when the reads end; `none` while the socket is waited on.
  unfoldable pub read_to_end : Bytes → Reads → Option Bytes
  read_to_end raw [] = none
  read_to_end raw (none ∷ rest) = some raw
  read_to_end raw (some [] ∷ rest) = some raw
  read_to_end raw (some (b ∷ bs) ∷ rest) = read_to_end (raw ++ (b ∷ bs)) rest

  abbrev pub response_of : Option Bytes → Option (Result HttpError Response)
  response_of none = none
  response_of (some raw) = some (ok_or bad_response (ext.parse_response raw))

  unfoldable pub send_request : Transport → Bytes → Option (Result HttpError Response)
  send_request socket bytes =
      if not (socket.write_all bytes)
      then some (err write_failed)
      else if not socket.flush
      then some (err flush_failed)
      else response_of (read_to_end [] (socket.reads bytes))

  module _ {Addr : Type 0} (features : Features) (net : ClientNet Addr) where
    abbrev pub secured : Bytes → Option Transport → Option (Result HttpError Response)
    secured bytes none = some (err tls_failed)
    secured bytes (some tls) = send_request tls bytes

    abbrev pub connected : ClientJob → Option Transport → Option (Result HttpError Response)
    connected job none = some (err connect_failed)
    connected job (some socket) =
        if features.secure && job.secure
        then secured job.bytes (net.connect_tls socket)
        else send_request socket job.bytes

    unfoldable pub exchange_on : Addr → ClientJob → Option (Result HttpError Response)
    exchange_on remote job = connected job (net.connect remote job.port)

    abbrev pub resolved : ClientJob → Option Addr → Option (Result HttpError Response)
    resolved job none = some (err mdns_failed)
    resolved job (some addr) = exchange_on addr job

    abbrev pub queried : ClientJob → Option (List Addr) → Option (Result HttpError Response)
    queried job none = some (err dns_failed)
    queried job (some []) = some (err no_dns_results)
    queried job (some (addr ∷ addrs)) = exchange_on addr job

    unfoldable pub exchange : ClientJob → Option (Result HttpError Response)
    exchange job =
        if features.mdns && ends_with job.host (codes ".local")
        then resolved job (net.resolve job.host)
        else queried job (net.dns_query job.host)

  module _ (features : Features) (parts : RequestParts Request) where
    abbrev pub encoded : Bool → Bytes × ℕ → Option Bytes → Result HttpError ClientJob
    encoded secure (host, port) none = err encode_failed
    encoded secure (host, port) (some bytes) =
        ok (record { host = host; port = port; secure = secure; bytes = bytes })

    abbrev pub collected : Bool → Bytes × ℕ → Option Request → Result HttpError ClientJob
    collected secure target none = err body_failed
    collected secure target (some request) = encoded secure target (ext.encode_request request)

    abbrev pub targeted : Request → Bool → Bytes → Result HttpError ClientJob
    targeted request secure [] = err no_host
    targeted request secure (c ∷ cs) =
        collected secure (split_authority (c ∷ cs) (if secure then 443 else 80))
          (parts.into_bytes request)

    -- What `esp_send` does until it queues its job.
    unfoldable pub client_job : Request → Result HttpError ClientJob
    client_job request =
        if parts.is_secure request && not features.secure
        then err https_unsupported
        else targeted request (parts.is_secure request) (parts.authority request)

    -- The outcome that a job's reply brings, or that the queue is full.
    abbrev pub replied : Option (Result HttpError Response) → Result HttpError Response
    replied none = err queue_full
    replied (some outcome) = outcome

    -- `call` is `CLIENT_BRIDGE.call`, `none` if the queue is full.
    unfoldable pub esp_send :
        (ClientJob → Option (Result HttpError Response)) → Request → Result HttpError Response
    esp_send call request = and_then (client_job request) (λ job. replied (call job))
