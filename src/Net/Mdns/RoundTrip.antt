-- ===== src/Net/Mdns/RoundTrip.antt =====
-- The builders of `src/net/mdns.rs` against its parsers.
use beet_esp.Base.{ℕ, ◌+◌, ◌^◌, ◌<◌, ◌≡◌, refl, arith}
use beet_esp.Base.{false, none, some, [], ◌∷◌, Bytes, length, drop}
use beet_esp.Base.{length-append, if◌then◌else◌, be_word32, Bool-cases, inl, inr}
use beet_esp.Net.Mdns.Writer.{Ipv4}
use beet_esp.Net.Mdns.Cursor.{new, get_u32, same_label}
use beet_esp.Net.Mdns.Packet.{
  questions, is_query_for, skip_questions, get_ipv4, answers, parse_answer,
}
use beet_esp.Net.Mdns.Built.{IsLabel, name_bytes, query_bytes, answer_bytes}
use beet_esp.Net.Mdns.Answers.{get_u8-drop, skip-drop, name_matches-name, get_u16-drop}

-- `build_query` and `is_query_for` agree: the packet of a query for a label is taken for a query for a
-- host exactly if the two are the same up to ASCII case.
pub query_answered :
    (label host : Bytes)
    → IsLabel label
    → is_query_for (query_bytes label) host ≡ same_label label host
unfolding is_query_for questions new
query_answered label host (lo, hi) =
    let buf = query_bytes label in
    let fits : length buf < 2 ^ 32 = omega (
      arith,
      length-append (name_bytes label) (0 ∷ 1 ∷ 0 ∷ 1 ∷ []),
      length-append (length label ∷ label) (5 ∷ b'l' ∷ b'o' ∷ b'c' ∷ b'a' ∷ b'l' ∷ 0 ∷ []),
    ) in
    let (named, h₁) = name_matches-name buf host label 12 (0 ∷ 1 ∷ 0 ∷ 1 ∷ []) refl (lo, hi) fits in
    let (qtype, h₂) = get_u16-drop buf (12 + (length label + 8)) h₁ in
    let (qclass, h₃) = get_u16-drop buf (12 + (length label + 8) + 2) h₂ in
    elim (Bool-cases (same_label label host)) [
      | inl same ↦ rw (named, qtype, qclass, same)
      | inr other ↦ rw (named, qtype, qclass, other)
    ]

get_u32-drop :
    (buf : Bytes) (pos : ℕ) {a b c d : ℕ} {rest : Bytes}
    → drop pos buf ≡ a ∷ b ∷ c ∷ d ∷ rest
    → (get_u32 buf pos ≡ (pos + 4, some (be_word32 a b c d))) × (drop (pos + 4) buf ≡ rest)
unfolding get_u32
get_u32-drop buf pos h =
    let (x, h₁) = get_u8-drop buf pos h in
    let (y, h₂) = get_u8-drop buf (pos + 1) h₁ in
    let (z, h₃) = get_u8-drop buf (pos + 1 + 1) h₂ in
    let (w, h₄) = get_u8-drop buf (pos + 1 + 1 + 1) h₃ in
    let step : pos + 1 + 1 + 1 + 1 ≡ pos + 4 = omega arith in (rw (x, y, z, w, step), rw step at h₄)

get_ipv4-drop :
    (buf : Bytes) (pos : ℕ) (ip : Ipv4) {rest : Bytes}
    → drop pos buf ≡ ip.a ∷ ip.b ∷ ip.c ∷ ip.d ∷ rest
    → (get_ipv4 buf pos).1 ≡ some ip
unfolding get_ipv4
get_ipv4-drop buf pos ip h =
    let (x, h₁) = get_u8-drop buf pos h in
    let (y, h₂) = get_u8-drop buf (pos + 1) h₁ in
    let (z, h₃) = get_u8-drop buf (pos + 1 + 1) h₂ in
    let (w, h₄) = get_u8-drop buf (pos + 1 + 1 + 1) h₃ in rw (x, y, z, w)

-- `build_answer` and `parse_answer` agree: the packet of an answer gives its address to a host that
-- asked for its label, up to ASCII case, and nothing to any other.
pub answer_parsed :
    (label host : Bytes) (ip : Ipv4)
    → IsLabel label
    → parse_answer (answer_bytes label ip) host ≡ (if same_label label host then some ip else none)
unfolding parse_answer skip_questions answers new
answer_parsed label host ip (lo, hi) =
    let buf = answer_bytes label ip in
    let octets = ip.a ∷ ip.b ∷ ip.c ∷ ip.d ∷ [] in
    let tail = 0 ∷ 1 ∷ 0x80 ∷ 1 ∷ 0 ∷ 0 ∷ 0 ∷ 120 ∷ 0 ∷ 4 ∷ octets in
    let fits : length buf < 2 ^ 32 = omega (
      arith,
      length-append (name_bytes label) tail,
      length-append (length label ∷ label) (5 ∷ b'l' ∷ b'o' ∷ b'c' ∷ b'a' ∷ b'l' ∷ 0 ∷ []),
    ) in
    let (named, h₁) = name_matches-name buf host label 12 tail refl (lo, hi) fits in
    let p = 12 + (length label + 8) in
    let (rtype, h₂) = get_u16-drop buf p h₁ in
    let (rclass, h₃) = get_u16-drop buf (p + 2) h₂ in
    let (ttl, h₄) = get_u32-drop buf (p + 2 + 2) h₃ in
    let (rdlen, h₅) = get_u16-drop buf (p + 2 + 2 + 4) h₄ in
    let (skipped, _, _) = skip-drop buf (p + 2 + 2 + 4 + 2) octets [] h₅ (omega arith) fits in
    elim (Bool-cases (same_label label host)) [
      | inl same ↦
          rw (named, rtype, rclass, ttl, rdlen, same, get_ipv4-drop buf (p + 2 + 2 + 4 + 2) ip h₅)
      | inr other ↦ rw (named, rtype, rclass, ttl, rdlen, other, skipped)
    ]

-- A query is not taken for an answer, nor an answer for a query.
pub query_answer_apart :
    (label host : Bytes) (ip : Ipv4)
    → (parse_answer (query_bytes label) host ≡ none)
      × (is_query_for (answer_bytes label ip) host ≡ false)
unfolding parse_answer is_query_for new
query_answer_apart label host ip = (refl, refl)
