-- ===== src/Device/Line.antt =====
-- custom-endpoint/matrix_multiplier_pcie.h: the interrupt line.
pub mod Interrupt
pub mod Level
