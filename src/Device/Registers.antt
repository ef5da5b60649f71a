-- ===== src/Device/Registers.antt =====
-- custom-endpoint/matrix_multiplier_pcie.h: what an access of BAR0 does to the registers.
pub mod Pointers
pub mod Bounds
pub mod Words
pub mod Frame
pub mod Halves
pub mod Acknowledge
pub mod Typed
