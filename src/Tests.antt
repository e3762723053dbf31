-- ===== src/Tests.antt =====
-- The theorems at concrete inputs, and runs of the code.
mod Ucpack
mod Alvik
mod Body
mod AsyncBridge
mod Bridge
mod Net
mod Http
mod Socket
mod Device
