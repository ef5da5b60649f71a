-- ===== src/Driver/Lifecycle.antt =====
-- kernel-device-driver/custom_qemu_device_driver.c: probe and remove.
pub mod Probe
pub mod Table
pub mod Resources
pub mod Unwind
pub mod Accesses
pub mod Failed
pub mod Above
pub mod Removed
