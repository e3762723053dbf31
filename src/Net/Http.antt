-- ===== src/Net/Http.antt =====
-- What the HTTP server and the HTTP client of `src/net` share: the outcomes of the reads of a
-- socket, and the functions of `beet`'s `http_ext` that they call, which are parameters. What its
-- documentation says of them and the two transports rely on is `HttpLaws`.
use beet_esp.Base.{ℕ, ◌+◌, ◌≤◌, Option, none, some, List, ◌++◌, ◌≡◌, Bytes, length}
pub mod Server
pub mod Client
pub mod Authority
pub mod Chunks
pub mod RoundTrip

-- What the successive calls of `read` give: `none` is an error (a time-out too), `some []` is the end
-- of the stream. After the last one, the socket is waited on.
abbrev pub Reads : Type 0
Reads = List (Option Bytes)

-- `beet::prelude::http_ext`. An error of it is `none`.
pub record HttpExt (Request Response : Type 0) : Type 0 where
  pub find_header_end : Bytes → Option ℕ
  pub parse_content_length : Bytes → ℕ
  pub parse_http_request : Bytes → Option Request
  pub serialize_http_response : Response → Option Bytes
  pub encode_request : Request → Option Bytes
  pub parse_response : Bytes → Option Response

-- A header's end is inside the bytes in which it is found, and what is read later does not move it.
pub record HttpLaws {Request Response : Type 0} (ext : HttpExt Request Response) : Type 0 where
  pub end_inside : (bs : Bytes) {e : ℕ} → ext.find_header_end bs ≡ some e → e ≤ length bs
  pub end_stays :
      (bs later : Bytes) {e : ℕ}
      → ext.find_header_end bs ≡ some e
      → ext.find_header_end (bs ++ later) ≡ some e
