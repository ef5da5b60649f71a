-- ===== src/Device/Requests.antt =====
-- custom-endpoint/matrix_multiplier_pcie.h: requests for a multiplication, and what becomes of them.
pub mod Served
pub mod Job
pub mod Lost
