-- ===== src/Net/Mdns.antt =====
-- `src/net/mdns.rs`: the DNS wire format of the responder and the resolver. Names are their UTF-8
-- bytes. `Writer` and `Cursor` are the two ends of a packet, `Packet` what is read from one.
pub mod Writer
pub mod Cursor
pub mod Packet
pub mod Built
pub mod Answers
pub mod RoundTrip
pub mod Tasks
