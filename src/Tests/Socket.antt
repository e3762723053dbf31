-- ===== src/Tests/Socket.antt =====
-- The WebSocket client of `src/net/socket_client.rs` with a small frame format for `ws_ext`: the length
-- of the payload, at most 125, and the payload; an empty one is a Close.
use beet_esp.Base.{ℕ, suc, ◌≤◌, ◌<◌, ◌≡◌, refl, arith, Bool, true, false}
use beet_esp.Base.{Option, none, some, List, [], ◌∷◌, ◌++◌, Bytes, length, length-append, take}
use beet_esp.Base.{take-append_left, leb, leb_iff, ltb, ◌==◌, if◌then◌else◌, err, codes}
use beet_esp.Net.Socket.{WsExt, WsLaws}
use beet_esp.Net.Socket.Pump.{Event, read, outgoing, handshake_closed}
use beet_esp.Net.Socket.Connect.{
  ConnectJob, SocketNet, dialled, drive_connection, handle_connection, resolve_endpoint, run_socket,
  read_handshake_response,
}
use beet_esp.Net.Socket.Outcome.{IsOutcome, drive_connection-IsOutcome}

abbrev frame_by : Bool → Bool → Bytes → ℕ → Option (Option (Bytes × ℕ))
frame_by true whole m k = none
frame_by false true m k = some (some (m, k))
frame_by false false m k = some none

abbrev small_frame : Bytes → Option (Option (Bytes × ℕ))
small_frame [] = some none
small_frame (j ∷ bs) = frame_by (ltb 125 j) (leb j (length bs)) (take j bs) (suc j)

abbrev small : WsExt Bytes
small = record {
  is_close = λ m. length m == 0;
  parse_frame = small_frame;
  encode_frame = λ m mask. length m ∷ m;
  encode_client_key = λ bs. bs;
  encode_handshake_request = λ authority path key. some (authority ++ path);
  validate_handshake_response = λ response key. true;
  find_header_end = λ bs. if leb 2 (length bs) then some 2 else none;
}

frame_by-some :
    (too_long whole : Bool) (n m : Bytes) (j k : ℕ)
    → frame_by too_long whole n j ≡ some (some (m, k))
    → (too_long ≡ false) × (whole ≡ true) × (n ≡ m) × (j ≡ k)
frame_by-some true whole n m j k h = absurd cc
frame_by-some false false n m j k h = absurd cc
frame_by-some false true n m j k h = (refl, refl, cc, cc)

frame_by-none :
    (too_long whole : Bool) (n : Bytes) (j : ℕ)
    → frame_by too_long whole n j ≡ none
    → too_long ≡ true
frame_by-none true whole n j h = refl
frame_by-none false true n j h = cc
frame_by-none false false n j h = cc

small-inside :
    (bs : Bytes) {m : Bytes} {k : ℕ}
    → small_frame bs ≡ some (some (m, k))
    → (0 < k) × (k ≤ length bs)
small-inside [] h = absurd cc
small-inside (j ∷ bs) {m} {k} h =
    let (short, whole, same, size) =
      frame_by-some (ltb 125 j) (leb j (length bs)) (take j bs) m (suc j) k h in
    ground arith

small-stays :
    (bs later : Bytes) {m : Bytes} {k : ℕ}
    → small_frame bs ≡ some (some (m, k))
    → small_frame (bs ++ later) ≡ some (some (m, k))
small-stays [] later h = cc
small-stays (j ∷ bs) later {m} {k} h =
    let (short, whole, same, size) =
      frame_by-some (ltb 125 j) (leb j (length bs)) (take j bs) m (suc j) k h in
    let inside : j ≤ length bs = ground arith in
    let still : leb j (length (bs ++ later)) ≡ true =
      (leb_iff _ _).1 (omega (arith, length-append bs later)) in
    rw (short, still, take-append_left j bs later inside, same, size) refl

small-error_stays : (bs later : Bytes) → small_frame bs ≡ none → small_frame (bs ++ later) ≡ none
small-error_stays [] later h = cc
small-error_stays (j ∷ bs) later h =
    rw (frame_by-none (ltb 125 j) (leb j (length bs)) (take j bs) (suc j) h) refl

abbrev small-WsLaws : WsLaws small
small-WsLaws = record {
  frame_inside = small-inside;
  frame_stays = small-stays;
  error_stays = small-error_stays;
}

-- Two frames in three reads, the second a Close, with a message sent in between.
abbrev events : List (Event Bytes)
events =
    read (some (2 ∷ 65 ∷ []))
    ∷ outgoing (67 ∷ []) [] true true
    ∷ read (some (66 ∷ []))
    ∷ read (some (0 ∷ 9 ∷ []))
    ∷ []

-- A server that closes the connection during the handshake.
abbrev hasty : SocketNet ℕ Bytes
hasty = record {
  dns_query = λ host. some (7 ∷ []);
  connect = λ addr port. dialled (record {
    write_all = λ bytes. true;
    flush = true;
    reads = some (65 ∷ []) ∷ some [] ∷ [];
    events = [];
  });
  connect_tls = λ socket. some socket;
}

abbrev job : ConnectJob
job = record {
  authority = codes "esp.local:80";
  host = codes "esp.local";
  port = 80;
  secure = false;
}

-- The caller is told that the connection was closed.
hasty_reply :
    drive_connection small hasty true job []
    ≡ record { replies = err handshake_closed ∷ []; stream = [] }
unfolding drive_connection handle_connection resolve_endpoint run_socket read_handshake_response
hasty_reply = refl

drive_connection-IsOutcome_example :
    IsOutcome small
      (handle_connection small hasty true job []).result
      (drive_connection small hasty true job [])
drive_connection-IsOutcome_example = drive_connection-IsOutcome small hasty true job []
