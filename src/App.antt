-- ===== src/App.antt =====
-- kernel-device-driver/user-space-application/app.c: the program that multiplies two matrices.
pub mod Main
pub mod Calls
pub mod Steps
pub mod Printed
pub mod Runs
pub mod Copied
pub mod Machine
pub mod EndToEnd
mod Tests
