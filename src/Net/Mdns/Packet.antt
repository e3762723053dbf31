-- ===== src/Net/Mdns/Packet.antt =====
-- `is_query_for` and `parse_answer` of `src/net/mdns.rs`.
use beet_esp.Base.{ℕ, zero, suc, Bool, true, false, not, ◌&&◌, Option, none, some, Bytes}
use beet_esp.Base.{◌==◌, if◌then◌else◌, bit_and}
use beet_esp.Net.Mdns.Writer.{type_a, class_in, class_mask, Ipv4}
use beet_esp.Net.Mdns.Cursor.{Reader, new, Read, ◌>>=◌, ◌>>◌, done, fail, get_u8, get_u16}
use beet_esp.Net.Mdns.Cursor.{get_u32, skip, skip_name, name_matches}

-- What a question's type and class say; both are read, whether or not the first read fails.
abbrev is_a : Option ℕ → Option ℕ → Option Bool
is_a (some qtype) (some qclass) = some (qtype == type_a && bit_and qclass class_mask == class_in)
is_a _ _ = none

-- A turn of `for _ in 0..qd` behind `name_matches`; `rest` is the turns that follow.
abbrev on_question : Bool → Option Bool → Bool → Bool
on_question matched none rest = false
on_question matched (some hit) rest = if matched && hit then true else rest

unfoldable pub questions : ℕ → Bytes → Bytes → ℕ → Bool
questions zero buf hostname pos = false
questions (suc left) buf hostname pos =
    let named = name_matches buf hostname pos in
    let qtype = get_u16 buf named.0 in
    let qclass = get_u16 buf qtype.0 in
    on_question named.1 (is_a qtype.1 qclass.1) (questions left buf hostname qclass.0)

abbrev query_of : Option Reader → Bytes → Bool
query_of none hostname = false
query_of (some r) hostname =
    if not (bit_and r.flags 0x8000 == 0)
    then false
    else (if r.qdcount == 0 then false else questions r.qdcount r.buf hostname r.pos)

unfoldable pub is_query_for : Bytes → Bytes → Bool
is_query_for pkt hostname = query_of (new pkt) hostname

-- `for _ in 0..r.qdcount` of `parse_answer`.
unfoldable pub skip_questions : ℕ → Bytes → Read (Unit {0})
skip_questions zero buf = done tt
skip_questions (suc left) buf = do
  skip_name buf
  qtype ← get_u16 buf
  qclass ← get_u16 buf
  skip_questions left buf

-- The four octets.
unfoldable pub get_ipv4 : Bytes → Read Ipv4
get_ipv4 buf = do
  a ← get_u8 buf
  b ← get_u8 buf
  c ← get_u8 buf
  d ← get_u8 buf
  done (record { a = a; b = b; c = c; d = d })

-- The matched flag of `name_matches`, as a read that does not fail.
abbrev matching : ℕ × Bool → ℕ × Option Bool
matching (p, b) = (p, some b)

-- `for _ in 0..r.ancount`; the result is the address, or that no record was one.
unfoldable pub answers : ℕ → Bytes → Bytes → Read Ipv4
answers zero buf label = fail
answers (suc left) buf label =
    let rest = answers left buf label in
    do
      matched ← (λ pos. matching (name_matches buf label pos))
      rtype ← get_u16 buf
      rclass ← get_u16 buf
      ttl ← get_u32 buf
      rdlen ← get_u16 buf
      if matched && (rtype == type_a && rdlen == 4) then get_ipv4 buf else (do skip buf rdlen; rest)

abbrev answer_of : Option Reader → Bytes → Option Ipv4
answer_of none label = none
answer_of (some r) label =
    if bit_and r.flags 0x8000 == 0
    then none
    else ((do skip_questions r.qdcount r.buf; answers r.ancount r.buf label) r.pos).1

unfoldable pub parse_answer : Bytes → Bytes → Option Ipv4
parse_answer pkt label = answer_of (new pkt) label
