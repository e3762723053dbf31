-- ===== src/Tests/Http.antt =====
-- The HTTP transports of `src/net` with a small wire format for `http_ext`: the length of the body, a
-- line feed that ends the header, and the body.
use beet_esp.Base.{ℕ, zero, suc, ◌≤◌, ◌≡◌, refl, arith, true}
use beet_esp.Base.{
  Option, none, some, List, [], ◌∷◌, ◌++◌, map, Bytes, length, length-replicate, replicate, All,
}
use beet_esp.Base.{◌==◌, if◌then◌else◌, codes}
use beet_esp.Net.Http.{Reads, HttpExt, HttpLaws}
use beet_esp.Base.{ok}
use beet_esp.Net.Http.Server.{read_http, server_loop, answer, write_all, flush, close}
use beet_esp.Net.Http.Client.{Transport, send_request}
use beet_esp.Net.Http.Authority.{split_authority}
use beet_esp.Net.Http.Authority.Port.{split_authority-port}
use beet_esp.Net.Http.Chunks.{read_http-whole, read_http-ends, IsRead, IsReadWithin}
use beet_esp.Net.Http.RoundTrip.{send_request-served}

abbrev next : Option ℕ → Option ℕ
next none = none
next (some n) = some (suc n)

abbrev line_turn : ℕ → Option ℕ → Option ℕ
line_turn x later = if x == 10 then some 1 else next later

abbrev line_end : Bytes → Option ℕ
line_end [] = none
line_end (x ∷ xs) = line_turn x (line_end xs)

abbrev first_byte : Bytes → ℕ
first_byte [] = 0
first_byte (x ∷ xs) = x

abbrev body : Bytes → Option Bytes
body [] = none
body (x ∷ []) = none
body (x ∷ y ∷ bs) = some bs

abbrev with_length : Bytes → Option Bytes
with_length bs = some (length bs ∷ 10 ∷ bs)

abbrev wire : HttpExt Bytes Bytes
wire = record {
  find_header_end = line_end;
  parse_content_length = first_byte;
  parse_http_request = body;
  serialize_http_response = with_length;
  encode_request = with_length;
  parse_response = body;
}

inside_turn :
    (x n : ℕ) (later : Option ℕ) {e : ℕ}
    → ((k : ℕ) → later ≡ some k → k ≤ n)
    → line_turn x later ≡ some e
    → e ≤ suc n
inside_turn x n none inside h = ground arith
inside_turn x n (some k) {e} inside h = let bound = inside k refl in ground arith

line_end-inside : (bs : Bytes) {e : ℕ} → line_end bs ≡ some e → e ≤ length bs
line_end-inside [] h = cc
line_end-inside (x ∷ xs) h = inside_turn x (length xs) (line_end xs) (λ k. line_end-inside xs) h

stays_turn :
    (x : ℕ) (o p : Option ℕ) {e : ℕ}
    → ((k : ℕ) → o ≡ some k → p ≡ some k)
    → line_turn x o ≡ some e
    → line_turn x p ≡ some e
stays_turn x none p stays h = ground arith
stays_turn x (some k) p stays h = rw (stays k refl) h

line_end-stays : (bs later : Bytes) {e : ℕ} → line_end bs ≡ some e → line_end (bs ++ later) ≡ some e
line_end-stays [] later h = cc
line_end-stays (x ∷ xs) later h =
    stays_turn x (line_end xs) (line_end (xs ++ later)) (λ k. line_end-stays xs later) h

abbrev wire-HttpLaws : HttpLaws wire
wire-HttpLaws = record { end_inside = line_end-inside; end_stays = line_end-stays }

body-with_length : (bs : Bytes) {out : Bytes} → with_length bs ≡ some out → body out ≡ some bs
body-with_length bs h = ground arith

-- A request of three bytes in two chunks, on a connection that stays open.
abbrev sent : List Bytes
sent = (3 ∷ 10 ∷ 65 ∷ []) ∷ (66 ∷ 67 ∷ []) ∷ []

read_http-whole_example :
    read_http wire [] (map some sent ++ []) ≡ some (3 ∷ 10 ∷ 65 ∷ 66 ∷ 67 ∷ [], [])
read_http-whole_example =
    read_http-whole wire wire-HttpLaws sent [] 2 (refl, refl, omega arith, omega arith)
      (omega arith, (omega arith, tt))

-- A header that never ends, byte by byte.
abbrev endless : Reads
endless = replicate 8192 (some (65 ∷ []))

All-replicate : (n : ℕ) → All IsRead (replicate n (some (65 ∷ [])))
All-replicate zero = tt
All-replicate (suc n) = (omega arith, All-replicate n)

read_http-ends_example : IsReadWithin 8704 (read_http wire [] endless)
read_http-ends_example =
    read_http-ends wire endless
      (omega (arith, length-replicate {A = Option Bytes} 8192 (some (65 ∷ []))))
      (All-replicate 8192)

abbrev reply : Bytes → Option Bytes
reply request = some (request ++ codes "!")

abbrev socket : Transport
socket = record {
  write_all = λ bytes. true;
  flush = true;
  reads = λ bytes. some (4 ∷ []) ∷ some (10 ∷ 65 ∷ 66 ∷ 67 ∷ 33 ∷ []) ∷ some [] ∷ [];
}

send_request-served_example :
    (server_loop wire (some (map some sent ++ [], reply) ∷ [])
      ≡ (write_all (4 ∷ 10 ∷ 65 ∷ 66 ∷ 67 ∷ 33 ∷ []) ∷ flush ∷ close ∷ []) ∷ [])
    × (send_request wire socket (3 ∷ 10 ∷ 65 ∷ 66 ∷ 67 ∷ []) ≡ some (ok (codes "ABC!")))
unfolding answer
send_request-served_example =
    send_request-served wire wire-HttpLaws reply (codes "ABC") (codes "ABC!") (codes "ABC!")
      (3 ∷ 10 ∷ codes "ABC") (4 ∷ 10 ∷ codes "ABC!") sent 2 [] socket
      ((4 ∷ []) ∷ (10 ∷ codes "ABC!") ∷ []) [] refl refl refl refl refl
      (refl, refl, omega arith, omega arith) (omega arith, (omega arith, tt)) refl refl refl
      (omega arith, (omega arith, tt)) refl

split_authority-port_example : split_authority (codes "::1:8080") 80 ≡ (codes "::1", 8080)
split_authority-port_example = split_authority-port (codes "::1") b'8' (codes "080") 80 (
  (omega arith, omega arith),
  ((omega arith, omega arith), ((omega arith, omega arith), ((omega arith, omega arith), tt))),
)
