-- ===== src/Net/Mdns/Tasks/Found.antt =====
-- Two devices that run `mdns_task` of `src/net/mdns.rs`: the one that resolves a name and the one that
-- has it.
use beet_esp.Base.{ℕ, ◌+◌, ◌≤◌, ◌<◌, ◌≡◌, refl, sym, ◌∙◌, ap, arith, and_split, ==_iff}
use beet_esp.Base.{true, false, Option, none, some, List, [], ◌∷◌, ◌++◌, All}
use beet_esp.Base.{Bytes, length, length-append, take, drop, take-append_self, leb, ltb, ◌==◌}
use beet_esp.Net.Mdns.Writer.{Ipv4}
use beet_esp.Net.Mdns.Cursor.{to_lower, same_label}
use beet_esp.Net.Mdns.Packet.{is_query_for, parse_answer}
use beet_esp.Net.Mdns.Built.{IsLabel, query_bytes, answer_bytes, build_query_lem, build_answer_lem}
use beet_esp.Net.Mdns.RoundTrip.{query_answered, answer_parsed}
use beet_esp.Net.Mdns.Tasks.{
  Inbound, blank, resolve_timeout, packet_of, handle_inbound, Resolved, on_received, resolve_loop,
  queried, do_resolve,
}

same_label-sym : (xs ys : Bytes) → same_label xs ys ≡ true → same_label ys xs ≡ true
unfolding same_label
same_label-sym [] [] h = refl
same_label-sym [] (y ∷ ys) h = cc
same_label-sym (x ∷ xs) [] h = cc
same_label-sym (x ∷ xs) (y ∷ ys) h =
    let (first, others) = and_split (to_lower x == to_lower y) (same_label xs ys) h in
    let back : (to_lower y == to_lower x) ≡ true =
      (==_iff _ _).1 (sym ((==_iff (to_lower x) (to_lower y)).0 first)) in
    rw (back, same_label-sym xs ys others) refl

take-packet : (p rest : Bytes) → take (length p) (p ++ rest) ≡ p
take-packet p rest = take-append_self (length p) p rest refl

abbrev suffix : Bytes
suffix = 5 ∷ b'l' ∷ b'o' ∷ b'c' ∷ b'a' ∷ b'l' ∷ 0 ∷ []

room-answer :
    (host : Bytes) (ip : Ipv4) → IsLabel host → length (answer_bytes host ip) ≤ length blank
room-answer host ip (lo, hi) =
    let tail = 0 ∷ 1 ∷ 0x80 ∷ 1 ∷ 0 ∷ 0 ∷ 0 ∷ 120 ∷ 0 ∷ 4 ∷ ip.a ∷ ip.b ∷ ip.c ∷ ip.d ∷ [] in
    omega (arith, length-append (host ++ suffix) tail, length-append host suffix)

room-query : (label : Bytes) → IsLabel label → length (query_bytes label) ≤ length blank
room-query label (lo, hi) =
    omega (arith, length-append (label ++ suffix) (0 ∷ 1 ∷ 0 ∷ 1 ∷ []), length-append label suffix)

-- The device that has the name answers.
pub handle_inbound-query :
    (label host : Bytes) (ip : Ipv4)
    → IsLabel label
    → IsLabel host
    → same_label label host ≡ true
    → handle_inbound host (query_bytes label) (some ip) ≡ answer_bytes host ip ∷ []
unfolding handle_inbound
handle_inbound-query label host ip ok named same =
    let asked : is_query_for (query_bytes label) host ≡ true =
      query_answered label host ok ∙ same in
    let built = build_answer_lem blank host ip named (room-answer host ip named) in
    rw (asked) (ap packet_of built ∙ ap (λ p. p ∷ []) (take-packet (answer_bytes host ip) _))

-- What is no answer for the label.
abbrev pub IsOther : Bytes → Option Bytes → Type 0
IsOther label none = Unit
IsOther label (some pkt) = parse_answer pkt label ≡ none

-- An arrival before the deadline that is no answer.
abbrev pub IsNoise : Bytes → ℕ → Inbound → Type 0
IsNoise label deadline e = (e.at < deadline) × IsOther label e.packet

on_received-other :
    (own label : Bytes) (address : Option Ipv4) (o : Option Bytes) (rest : Resolved)
    → IsOther label o
    → (on_received own label address o rest).1 ≡ rest.1
on_received-other own label address none rest h = refl
on_received-other own label address (some pkt) rest h = rw h refl

-- The address is that of the first answer before the deadline.
resolve_loop-found :
    (own label host : Bytes) (ip : Ipv4) (deadline now at : ℕ) (noise rest : List Inbound)
    (address : Option Ipv4)
    → parse_answer (answer_bytes host ip) label ≡ some ip
    → now < deadline
    → All (IsNoise label deadline) noise
    → at ≤ deadline
    → (resolve_loop own label deadline now (
        noise
        ++ (record { at = at; packet = some (answer_bytes host ip); address = address } ∷ rest))).1
      ≡ some ip
unfolding resolve_loop
resolve_loop-found own label host ip deadline now at [] rest address parsed early quiet in_time =
    let a : leb deadline now ≡ false = ground arith in
    let b : ltb deadline at ≡ false = ground arith in rw (a, b, parsed) refl
resolve_loop-found own label host ip deadline now at (e ∷ es) rest address parsed early
      ((soon, other), quiet) in_time =
    let a : leb deadline now ≡ false = ground arith in
    let b : ltb deadline e.at ≡ false = ground arith in
    rw (a, b)
      (on_received-other own label e.address e.packet _ other
        ∙ resolve_loop-found own label host ip deadline e.at at es rest address parsed soon quiet
            in_time)

-- A device whose name is, up to ASCII case, the label that is resolved answers the query that
-- `do_resolve` sends, and when that answer arrives by the deadline, behind other packets that are no
-- answers, the resolver's outcome is that device's address.
pub do_resolve-found :
    (own label host : Bytes) (ip : Ipv4) (now at : ℕ) (noise rest : List Inbound)
    (address : Option Ipv4)
    → IsLabel label
    → IsLabel host
    → same_label label host ≡ true
    → All (IsNoise label (now + resolve_timeout)) noise
    → at ≤ now + resolve_timeout
    → let arrived =
        noise
        ++ (record { at = at; packet = some (answer_bytes host ip); address = address } ∷ rest) in
      (take 1 (do_resolve own label true now arrived).0 ≡ query_bytes label ∷ [])
      × (handle_inbound host (query_bytes label) (some ip) ≡ answer_bytes host ip ∷ [])
      × ((do_resolve own label true now arrived).1 ≡ some ip)
unfolding do_resolve
do_resolve-found own label host ip now at noise rest address ok named same quiet in_time =
    let arrived =
      noise
      ++ (record { at = at; packet = some (answer_bytes host ip); address = address } ∷ rest) in
    let built =
      ap (queried own label true now arrived)
        (build_query_lem blank label ok (room-query label ok)) in
    let back = same_label-sym label host same in
    let parsed : parse_answer (answer_bytes host ip) label ≡ some ip =
      answer_parsed host label ip named ∙ rw back refl in
    (
      ap (λ (r : Resolved). take 1 r.0) built
          ∙ ap (λ p. p ∷ [])
              (take-packet (query_bytes label) (drop (length (query_bytes label)) blank)),
      handle_inbound-query label host ip ok named same,
      ap (λ (r : Resolved). r.1) built
          ∙ resolve_loop-found own label host ip (now + resolve_timeout) now at noise rest address
              parsed (omega arith) quiet in_time,
    )
