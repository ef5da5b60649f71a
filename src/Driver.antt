-- ===== src/Driver.antt =====
-- kernel-device-driver/custom_qemu_device_driver.c: the character device's `ioctl`, the interrupt
-- handler, and the driver's life cycle.
pub mod Kernel
pub mod Ioctl
pub mod Irq
pub mod Numbers
pub mod Abi
pub mod Bus
pub mod Race
pub mod Contract
pub mod Transfer
pub mod Dispatch
pub mod Chardev
pub mod Lifecycle
mod Tests
