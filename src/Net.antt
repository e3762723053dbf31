-- ===== src/Net.antt =====
-- `src/net`: the Wi-Fi transports.
pub mod Http
pub mod Mdns
pub mod Socket
pub mod Browser
