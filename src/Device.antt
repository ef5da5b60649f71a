-- ===== src/Device.antt =====
-- custom-endpoint/matrix_multiplier_pcie.h: the endpoint's registers, its BAR0 handler, its DMA and
-- its two threads.
pub mod State
pub mod Mmio
pub mod Compute
pub mod Access
pub mod Steps
pub mod Registers
pub mod Multiply
pub mod Sound
pub mod History
pub mod Line
pub mod Requests
pub mod Place
mod Histories
mod Tests
