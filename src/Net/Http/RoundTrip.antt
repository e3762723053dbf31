-- ===== src/Net/Http/RoundTrip.antt =====
-- The client of `src/net/http_client.rs` and the server of `src/net/http_server.rs`, joined: the
-- bytes that one sends are answered by the other.
use beet_esp.Base.{ℕ, ◌≡◌, sym, ◌∙◌, ap, true, Option, some}
use beet_esp.Base.{List, [], ◌∷◌, ◌++◌, map, Bytes, All, arith}
use mathlib.Core.List.{append_assoc, append-nil}
use beet_esp.Net.Http.{Reads, HttpExt, HttpLaws}
use beet_esp.Base.{ok, ok_or}
use beet_esp.Net.Http.Server.{
  write_all, flush, close, answer, server_loop, served, called, serialised, parsed,
}
use beet_esp.Net.Http.Client.{bad_response, Transport, read_to_end, response_of, send_request}
use beet_esp.Net.Http.Chunks.{concat, IsChunk, IsMessage, read_http-whole}

module _ {Request Response : Type 0} (ext : HttpExt Request Response) where
  read_to_end-chunks :
      (raw : Bytes) (ds : List Bytes) (rest : Reads)
      → All IsChunk ds
      → read_to_end ext raw (map some ds ++ (some [] ∷ rest)) ≡ some (raw ++ concat ds)
  unfolding read_to_end
  read_to_end-chunks raw [] rest chunks = ap some (sym (append-nil raw))
  read_to_end-chunks raw ([] ∷ ds) rest (h, chunks) = absurd (omega arith)
  read_to_end-chunks raw ((b ∷ bs) ∷ ds) rest (h, chunks) =
      read_to_end-chunks (raw ++ (b ∷ bs)) ds rest chunks
      ∙ ap some (append_assoc raw (b ∷ bs) (concat ds))

  module _ (laws : HttpLaws ext) where
    answer-served :
        (call : Request → Option Response) (request : Request) (response : Response)
        {bytes out : Bytes}
        → ext.parse_http_request bytes ≡ some request
        → call request ≡ some response
        → ext.serialize_http_response response ≡ some out
        → answer ext call bytes ≡ write_all out ∷ flush ∷ close ∷ []
    unfolding answer
    answer-served call request response sent reply made =
        ap (parsed ext call) sent ∙ ap (called ext) reply ∙ ap (serialised ext) made

    -- The bytes of a message that `parse_http_request` takes for a request reach the server in any chunks, the
    -- application answers, the response can be serialised, all writes succeed, and the bytes of the response, which
    -- can be parsed, come back in any chunks before the end of the stream: the server writes what `serialize_http_response` makes of the application's response, a
    -- flush and a close, and the client's result is what `parse_response` makes of just these bytes.
    pub send_request-served :
        (call : Request → Option Response) (request : Request) (response got : Response)
        (bytes out : Bytes) (cs : List Bytes) (e : ℕ) (rest : Reads) (socket : Transport)
        (ds : List Bytes) (later : Reads)
        → ext.parse_http_request bytes ≡ some request
        → call request ≡ some response
        → ext.serialize_http_response response ≡ some out
        → ext.parse_response out ≡ some got
        → concat cs ≡ bytes
        → IsMessage ext (concat cs) e
        → All IsChunk cs
        → socket.write_all bytes ≡ true
        → socket.flush ≡ true
        → concat ds ≡ out
        → All IsChunk ds
        → socket.reads bytes ≡ map some ds ++ (some [] ∷ later)
        → (server_loop ext (some (map some cs ++ rest, call) ∷ [])
            ≡ (write_all out ∷ flush ∷ close ∷ []) ∷ [])
          × (send_request ext socket bytes ≡ some (ok got))
    unfolding server_loop send_request
    send_request-served call request response got bytes out cs e rest socket ds later sent reply
          made understood arrived message chunks wrote flushed returned pieces reads =
        let whole =
          ap (λ t. served ext call t []) (read_http-whole ext laws cs rest e message chunks)
          ∙ ap (λ t. answer ext call t ∷ []) arrived
          ∙ ap (λ t. t ∷ []) (answer-served call request response sent reply made) in
        (
          whole,
          rw (wrote, flushed, reads)
              (ap (response_of ext) (read_to_end-chunks [] ds later pieces ∙ ap some returned)
                ∙ ap (λ t. some (ok_or bad_response t)) understood),
        )
