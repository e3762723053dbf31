-- ===== src/Alvik.antt =====
-- `src/alvik`: the driver of the Arduino Alvik's carrier board and the components of the robot.
pub mod Units
pub mod Types
pub mod Protocol
pub mod Events
pub mod Driver
pub mod Systems
pub mod Status
pub mod Actions
pub mod Body
