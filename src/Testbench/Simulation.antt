-- ===== src/Testbench/Simulation.antt =====
-- custom-endpoint/testbench.cpp: `test_sequence` and `sc_main`, run to the end.
pub mod Sequence
pub mod Line
pub mod Course
pub mod Phases
pub mod Conclusion
pub mod Report
pub mod Result
pub mod Schedule
pub mod Stages
pub mod Following
pub mod Rounds
pub mod Fair
