-- ===== src/Device.antt =====
-- The parts of the firmware that serve the device itself: `src/esp32_utils` and `src/utils`.
pub mod Clock
pub mod Health
pub mod Led
