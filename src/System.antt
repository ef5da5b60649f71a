-- ===== src/System.antt =====
-- The parts put together: the driver and the program on the endpoints.
pub mod Alike
pub mod Built
pub mod Traced
pub mod Device
pub mod RegisterMap
pub mod Rules
pub mod Compliant
mod Races
mod Tests
