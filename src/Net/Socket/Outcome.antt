-- ===== src/Net/Socket/Outcome.antt =====
-- `drive_connection` of `src/net/socket_client.rs`: who gets to know how a connection ends.
use beet_esp.Base.{ℕ, zero, suc, ◌-◌, ◌*◌, ◌≤◌, ◌≡◌, arith, inl, inr, Bool-cases}
use beet_esp.Base.{
  Bool, true, false, not, ◌&&◌, Option, none, some, List, [], ◌∷◌, ◌++◌, map, Bytes,
}
use beet_esp.Base.{length, length-append, length-take, take, min, le_bytes32, ◌==◌, if◌then◌else◌}
use beet_esp.Base.{Result, ok, err, codes}
use beet_esp.Net.Http.{Reads}
use beet_esp.Net.Socket.{WsExt}
use beet_esp.Net.Socket.Pump.{
  SocketError, tls_failed, bad_request, handshake_write_failed, handshake_flush_failed,
  connect_timed_out, connect_failed, Event, read, Pumped, run_duplex,
}
use beet_esp.Net.Socket.Connect.{
  ConnectJob, Dial, timed_out, refused, dialled, WsTransport, SocketNet, Handled, Driven, fails,
  pumping, shaken, requested, run_socket, secured, dialling, resolve_endpoint, reached,
  handle_connection, finished, drive_connection, random_bytes, read_handshake_response,
}

module _ {Message : Type 0} (ws : WsExt Message) where
  -- From how the connection ended, if it has, to what the caller and the reader get: the caller has no
  -- reply yet, is told the error that left it without a connection, or has one; only then do messages
  -- come, and the error that ends it, if any, is the last thing in their stream.
  pub data IsOutcome : Option (Result SocketError (Unit {0})) → Driven Message → Type 0 where
    pending : IsOutcome none (record { replies = []; stream = [] })
    no_connection :
        (e : SocketError) → IsOutcome (some (err e)) (record { replies = err e ∷ []; stream = [] })
    connected :
        (ms : List Message) → IsOutcome none (record { replies = ok tt ∷ []; stream = map ok ms })
    closed :
        (ms : List Message)
        → IsOutcome (some (ok tt)) (record { replies = ok tt ∷ []; stream = map ok ms })
    broken :
        (ms : List Message) (e : SocketError)
        → IsOutcome
            (some (err e))
            (record { replies = ok tt ∷ []; stream = map ok ms ++ (err e ∷ []) })

  data IsHandled : Handled Message → Type 0 where
    waits : IsHandled (record { replied = false; inbound = []; result = none })
    stops : (e : SocketError) → IsHandled (fails ws e)
    pumps : (p : Pumped Message) → IsHandled (pumping ws p)

  shaken-IsHandled :
      (events : List (Event Message)) (o : Option (Result SocketError (Bytes × Reads)))
      → IsHandled (shaken ws events o)
  shaken-IsHandled events none = waits
  shaken-IsHandled events (some (err e)) = stops e
  shaken-IsHandled events (some (ok (leftover, left))) =
      pumps (run_duplex ws (map read left ++ events) leftover)

  if-IsHandled :
      (b : Bool) {h k : Handled Message}
      → IsHandled h
      → IsHandled k
      → IsHandled (if b then h else k)
  if-IsHandled true p q = p
  if-IsHandled false p q = q

  requested-IsHandled :
      (socket : WsTransport Message) (key : Bytes) (o : Option Bytes)
      → IsHandled (requested ws socket key o)
  requested-IsHandled socket key none = stops bad_request
  requested-IsHandled socket key (some request) =
      if-IsHandled (not (socket.write_all request)) (stops handshake_write_failed) (
        if-IsHandled (not socket.flush) (stops handshake_flush_failed)
          (shaken-IsHandled socket.events (read_handshake_response ws key [] socket.reads)))

  run_socket-IsHandled :
      (socket : WsTransport Message) (job : ConnectJob) (key_bytes : Bytes)
      → IsHandled (run_socket ws socket job key_bytes)
  unfolding run_socket
  run_socket-IsHandled socket job key_bytes =
      requested-IsHandled socket (ws.encode_client_key key_bytes)
        (ws.encode_handshake_request job.authority (codes "/") (ws.encode_client_key key_bytes))

  module _ {Addr : Type 0} (net : SocketNet Addr Message) (secure_feature : Bool) where
    secured-IsHandled :
        (job : ConnectJob) (key_bytes : Bytes) (o : Option (WsTransport Message))
        → IsHandled (secured ws net secure_feature job key_bytes o)
    secured-IsHandled job key_bytes none = stops tls_failed
    secured-IsHandled job key_bytes (some tls) = run_socket-IsHandled tls job key_bytes

    dialling-IsHandled :
        (job : ConnectJob) (key_bytes : Bytes) (d : Dial (WsTransport Message))
        → IsHandled (dialling ws net secure_feature job key_bytes d)
    dialling-IsHandled job key_bytes timed_out = stops connect_timed_out
    dialling-IsHandled job key_bytes refused = stops connect_failed
    dialling-IsHandled job key_bytes (dialled socket) =
        if-IsHandled (secure_feature && job.secure)
          (secured-IsHandled job key_bytes (net.connect_tls socket))
          (run_socket-IsHandled socket job key_bytes)

    reached-IsHandled :
        (job : ConnectJob) (key_bytes : Bytes) (r : Result SocketError Addr)
        → IsHandled (reached ws net secure_feature job key_bytes r)
    reached-IsHandled job key_bytes (err e) = stops e
    reached-IsHandled job key_bytes (ok addr) =
        dialling-IsHandled job key_bytes (net.connect addr job.port)

    ended-IsOutcome :
        (ms : List Message) (r : Option (Result SocketError (Unit {0})))
        → IsOutcome r (finished ws net secure_feature true (map ok ms) r)
    ended-IsOutcome ms none = connected ms
    ended-IsOutcome ms (some (err e)) = broken ms e
    ended-IsOutcome ms (some (ok t)) = closed ms

    finished-IsOutcome :
        {h : Handled Message}
        → IsHandled h
        → IsOutcome h.result (finished ws net secure_feature h.replied (map ok h.inbound) h.result)
    finished-IsOutcome waits = pending
    finished-IsOutcome (stops e) = no_connection e
    finished-IsOutcome (pumps p) = ended-IsOutcome p.inbound p.result

    -- A connect call is answered at most once: with the error that `handle_connection` ends with before the
    -- connection is open, and then nothing reaches the stream; or with success, and then the error that
    -- `handle_connection` ends with, if any, comes behind all the messages. No error is lost, and none is
    -- told twice.
    pub drive_connection-IsOutcome :
        (job : ConnectJob) (key_bytes : Bytes)
        → IsOutcome
            (handle_connection ws net secure_feature job key_bytes).result
            (drive_connection ws net secure_feature job key_bytes)
    unfolding drive_connection handle_connection
    drive_connection-IsOutcome job key_bytes =
        finished-IsOutcome
          (reached-IsHandled job key_bytes (resolve_endpoint ws net secure_feature job.host))

-- The generator fills all the bytes that are asked for.
pub length-random_bytes :
    (fuel : ℕ) (words : ℕ → ℕ) (n : ℕ) → n ≤ 4 * fuel → length (random_bytes fuel words n) ≡ n
unfolding random_bytes
length-random_bytes zero words n h = omega arith
length-random_bytes (suc fuel) words n h = elim (Bool-cases (n == 0)) [
  | inl e ↦ ground arith
  | inr e ↦ rw e (
      omega (
        arith,
        length-append (take (min 4 n) (le_bytes32 (words 0)))
            (random_bytes fuel (λ i. words (suc i)) (n - 4)),
        length-take (min 4 n) (le_bytes32 (words 0)),
        length-random_bytes fuel (λ i. words (suc i)) (n - 4) (omega arith),
      ))
]
