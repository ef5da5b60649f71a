-- ===== src/Device/Multiply.antt =====
-- custom-endpoint/matrix_multiplier_pcie.h: a multiplication, and the steps of the compute thread that make it up.
pub mod Product
pub mod Run
pub mod Transfers
pub mod Undisturbed
pub mod Liveness
pub mod Polled
