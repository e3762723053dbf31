-- ===== src/Tests/Net.antt =====
-- The packets of `src/net/mdns.rs` for `esp.local`.
use beet_esp.Base.{◌≡◌, refl, arith, none, some, [], ◌∷◌, ◌++◌, Bytes, replicate, drop}
use beet_esp.Net.Mdns.Writer.{build_query, Ipv4}
use beet_esp.Net.Mdns.Cursor.{same_label}
use beet_esp.Net.Mdns.Packet.{is_query_for, parse_answer}
use beet_esp.Net.Mdns.Built.{query_bytes, answer_bytes, build_query_lem}
use beet_esp.Net.Mdns.Cursor.{new}
use beet_esp.Net.Mdns.Tasks.{Inbound, handle_inbound, do_resolve}
use beet_esp.Net.Mdns.Tasks.Found.{do_resolve-found}
use beet_esp.Base.{List, take, true}
use beet_esp.Net.Mdns.RoundTrip.{query_answered, answer_parsed}
use beet_esp.Net.Browser.Once.{
  Change, browser_spawned, network_up, frame_passed, run, empty, Ends, spawns_of, then_up,
  start_pending_browsers-once,
}

abbrev esp : Bytes
esp = b'e' ∷ b's' ∷ b'p' ∷ []

abbrev shouted : Bytes
shouted = b'E' ∷ b'S' ∷ b'P' ∷ []

abbrev home : Ipv4
home = record { a = 192; b = 168; c = 0; d = 7 }

abbrev blank : Bytes
blank = replicate 256 0

build_query_lem_example : build_query blank esp ≡ some (query_bytes esp ++ drop 27 blank, 27)
build_query_lem_example = build_query_lem blank esp (omega arith, omega arith) (omega arith)

query_answered_example : is_query_for (query_bytes esp) shouted ≡ same_label esp shouted
query_answered_example = query_answered esp shouted (omega arith, omega arith)

answer_parsed_example : parse_answer (answer_bytes esp home) shouted ≡ some home
unfolding same_label
answer_parsed_example = answer_parsed esp shouted home (omega arith, omega arith)

abbrev other : Bytes
other = b'h' ∷ b'u' ∷ b'b' ∷ []

abbrev stray : Inbound
stray = record { at = 40; packet = some (1 ∷ 2 ∷ 3 ∷ []); address = none }

stray-none : parse_answer (1 ∷ 2 ∷ 3 ∷ []) shouted ≡ none
unfolding parse_answer new
stray-none = refl

abbrev arrivals : List Inbound
arrivals = stray ∷ record { at = 90; packet = some (answer_bytes esp home); address = none } ∷ []

-- A stray packet, then the answer of `esp` to a query for `ESP`.
do_resolve-found_example :
    (take 1 (do_resolve other shouted true 0 arrivals).0 ≡ query_bytes shouted ∷ [])
    × (handle_inbound esp (query_bytes shouted) (some home) ≡ answer_bytes esp home ∷ [])
    × ((do_resolve other shouted true 0 arrivals).1 ≡ some home)
unfolding same_label
do_resolve-found_example =
    do_resolve-found other shouted esp home 0 90 (stray ∷ []) [] none (omega arith, omega arith)
      (omega arith, omega arith) refl ((omega arith, stray-none), tt) (omega arith)

abbrev home_service : Bytes
home_service = b'h' ∷ []

-- A browser that is there before the network, and one that comes later.
abbrev two_browsers : List Change
two_browsers =
    browser_spawned 3 esp
    ∷ frame_passed
    ∷ network_up
    ∷ frame_passed
    ∷ browser_spawned 5 home_service
    ∷ []

start_pending_browsers-once_example :
    Ends (λ e. spawns_of e two_browsers) (run (empty 16) (then_up two_browsers))
start_pending_browsers-once_example = start_pending_browsers-once 16 two_browsers (omega arith)
