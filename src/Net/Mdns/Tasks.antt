-- ===== src/Net/Mdns/Tasks.antt =====
-- `resolve`, `mdns_task`, `do_resolve` and `handle_inbound` of `src/net/mdns.rs`. The socket is what
-- arrives at it, with the time; the packets that are sent to the group are a list. Times are in
-- milliseconds. Failures to send an answer are only logged by the source.
use beet_esp.Base.{ℕ, ◌+◌, Bool, true, false, not, ◌||◌, Option, none, some, List, [], ◌∷◌, ◌++◌}
use beet_esp.Base.{Bytes, take, replicate, leb, ltb, if◌then◌else◌, codes, strip_suffix}
use mathlib.Core.Option
use beet_esp.Net.Mdns.Writer.{Ipv4, build_query, build_answer}
use beet_esp.Net.Mdns.Packet.{is_query_for, parse_answer}
pub mod Found

-- `RESOLVE_TIMEOUT`.
abbrev pub resolve_timeout : ℕ
resolve_timeout = 2000

-- An outcome of `recv_from`: when, what (`none` is an error), and the address that `current_ipv4`
-- gives at that time.
pub record Inbound : Type 0 where
  pub at : ℕ
  pub packet : Option Bytes
  pub address : Option Ipv4

abbrev pub blank : Bytes
blank = replicate 256 0

abbrev pub packet_of : Option (Bytes × ℕ) → List Bytes
packet_of none = []
packet_of (some (buf, len)) = take len buf ∷ []

abbrev pub answered : Bytes → Option Ipv4 → List Bytes
answered hostname none = []
answered hostname (some ip) = packet_of (build_answer blank hostname ip)

-- The packets that it sends.
unfoldable pub handle_inbound : Bytes → Bytes → Option Ipv4 → List Bytes
handle_inbound hostname pkt address =
    if not (is_query_for pkt hostname) then [] else answered hostname address

-- The packets that are sent, and the address that is found.
abbrev pub Resolved : Type 0
Resolved = List Bytes × Option Ipv4

-- What follows a packet; `rest` is the turns after it.
abbrev pub on_packet : Bytes → Option Ipv4 → Bytes → Option Ipv4 → Resolved → Resolved
on_packet hostname address pkt (some addr) rest = ([], some addr)
on_packet hostname address pkt none rest = (handle_inbound hostname pkt address ++ rest.0, rest.1)

abbrev pub on_received : Bytes → Bytes → Option Ipv4 → Option Bytes → Resolved → Resolved
on_received hostname label address none rest = rest
on_received hostname label address (some pkt) rest =
    on_packet hostname address pkt (parse_answer pkt label) rest

-- The loop of `do_resolve`: what arrives after the deadline is not waited for.
unfoldable pub resolve_loop : Bytes → Bytes → ℕ → ℕ → List Inbound → Resolved
resolve_loop hostname label deadline now [] = ([], none)
resolve_loop hostname label deadline now (e ∷ es) =
    let rest = resolve_loop hostname label deadline e.at es in
    if leb deadline now || ltb deadline e.at
    then ([], none)
    else on_received hostname label e.address e.packet rest

abbrev pub queried : Bytes → Bytes → Bool → ℕ → List Inbound → Option (Bytes × ℕ) → Resolved
queried hostname label sent now es none = ([], none)
queried hostname label sent now es (some (buf, len)) =
    if not sent
    then ([], none)
    else (let r = resolve_loop hostname label (now + resolve_timeout) now es in
        (take len buf ∷ r.0, r.1))

-- `sent` is whether `send_to` succeeds on the query.
unfoldable pub do_resolve : Bytes → Bytes → Bool → ℕ → List Inbound → Resolved
do_resolve hostname label sent now es = queried hostname label sent now es (build_query blank label)

-- A turn of `mdns_task`: a job of the resolver, or 250 milliseconds of waiting for a packet, which
-- may give nothing.
pub data Turn : Type 0 where
  job : Bytes → Bool → ℕ → List Inbound → Turn
  idle : Option Inbound → Turn

abbrev pub on_idle : Bytes → Option Ipv4 → Option Bytes → List Bytes
on_idle hostname address none = []
on_idle hostname address (some pkt) = handle_inbound hostname pkt address

abbrev pub served : Bytes → Option Inbound → List Bytes
served hostname none = []
served hostname (some e) = on_idle hostname e.address e.packet

-- The packets that are sent and the replies to the jobs, over some turns of the loop.
unfoldable pub mdns_loop : Bytes → List Turn → List Bytes × List (Option Ipv4)
mdns_loop hostname [] = ([], [])
mdns_loop hostname (job label sent now es ∷ turns) =
    let r = do_resolve hostname label sent now es in
    let rest = mdns_loop hostname turns in (r.0 ++ rest.0, r.1 ∷ rest.1)
mdns_loop hostname (idle received ∷ turns) =
    let rest = mdns_loop hostname turns in (served hostname received ++ rest.0, rest.1)

-- `joined` and `bound` are whether the group is joined and the socket bound.
unfoldable pub mdns_task : Bytes → Bool → Bool → List Turn → List Bytes × List (Option Ipv4)
mdns_task hostname joined bound turns =
    if not joined then ([], []) else if not bound then ([], []) else mdns_loop hostname turns

-- `call` is `RESOLVER.call`, `none` if the queue is full.
unfoldable pub resolve : (Bytes → Option (Option Ipv4)) → Bytes → Option Ipv4
resolve call host =
    Option.get_or (call (Option.get_or (strip_suffix host (codes ".local")) host)) none
