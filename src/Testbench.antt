-- ===== src/Testbench.antt =====
-- custom-endpoint/testbench.cpp: the host memory and the test driver.
pub mod Mmio
pub mod Memory
pub mod Ranges
pub mod Multiply
pub mod Program
pub mod Duration
pub mod Refused
pub mod Simulation
mod Tests
