-- ===== src/Lib.antt =====
-- A PCIe matrix multiplier and its software: an endpoint in SystemC, a Linux driver, and a
-- program that multiplies two matrices on it.
--
-- The parts and their files:
--   Device: custom-endpoint/matrix_multiplier_pcie.h. A register block at BAR0, a thread that
--     fetches two matrices by DMA, multiplies them and writes the product back, and a thread that
--     drives the interrupt line. `Device.State.Device` holds the registers (`reg_*`), where each
--     thread stands, and the line. `Device.Mmio` is `bar0_b_transport` with its two handlers.
--     `Device.Compute` is `compute_thread` and `perform_matrix_multiply`, cut where the thread
--     suspends: each call of `compute_thread` runs from one `wait` to the next, so that anything
--     may happen between two. The other files are about these: Access and Steps (the cases that a
--     property is proved by: what an access, a step of the controller and a step of the compute
--     thread do), Place (what moves that thread), Sound and History (every history of the
--     device). In Registers: Pointers and Bounds (what a write leaves in a register), Words and
--     Halves (reads after writes, pointers in halves), Frame (what changes nothing), Acknowledge
--     (INT_STATUS) and Typed (the registers' ranges). In Multiply: Product (the loops), Run (a
--     multiplication from start to end), Transfers (the DMA transactions), Undisturbed (the
--     product under way), Liveness (its end) and Polled (its steps among reads of the registers).
--     In Line: Interrupt and Level (the interrupt line). In Requests: Served (requests and the
--     status), Lost (a reset with a start meanwhile) and Job (the device as a machine for one job
--     at a time).
--   Testbench: custom-endpoint/testbench.cpp. Memory is `host_memory`, a function from indices to
--     bytes with a size; Mmio is the register accesses of `test_driver`. Multiply puts the device
--     on it, Program does so through the registers, and Duration has the time that it takes. In
--     Simulation: Sequence is `test_sequence` and `sc_main` as a system of three threads whose
--     steps come in any order; Line, Course, Phases and Conclusion follow it, Report is what
--     `sc_main` prints, Result the end of it all. Schedule has the order in which the times of
--     the source put the steps; Stages and Following are the simulation as a machine of a few
--     stages, and Rounds and Fair bring it to its end when the threads take turns.
--   Server: custom-endpoint/main.cc. Monitor is `TrafficMonitor` and Target is `DummyTarget`, the
--     endpoint that the program is built with. Multiplier is `MatrixMultiplier`, which that file
--     holds only as a comment; its register map is the one that the driver uses, and Endpoint
--     fills the interface of Driver.Contract with it. Adapter is `PCIeRPAdapter`, a comment too,
--     of which only `b_transport_from_pcie` is registered with a socket. Bridge is the
--     `b_transport` of custom-endpoint/qemu-bridge.h and the socket path that `sc_main` picks,
--     and Startup is `sc_main` as the sequence of its calls.
--   Driver: kernel-device-driver/custom_qemu_device_driver.c. Ioctl is `dev_ioctl` and the file's
--     other operations, Irq is `irq_handler`. The kernel's services are parameters
--     (Driver.Kernel). Abi is the encoding of ioctl numbers on Linux, Numbers tells the numbers
--     apart, and Chardev is kernel-device-driver/chardev.h. Contract states what the driver
--     expects of its device, and Transfer and Dispatch use it. Bus is what lies between the
--     mapping of the BAR and a target, as an interface, and Race is two calls at once. In
--     Lifecycle: Probe is `pci_probe` and `pci_remove` as the kernel calls that they make, where
--     the kernel's replies are a parameter; Table is what `myinit` registers; Resources, Unwind,
--     Failed, Above and Removed are about what these leave acquired, over any number of probes
--     and removes, and Accesses is what a probe writes to the device.
--   App: kernel-device-driver/user-space-application/app.c. Main is `main` over the system calls
--     and the process's memory, with what it prints; Calls follows its calls, Steps and Runs its
--     run on the driver, Printed what it prints then, and Copied relates its exit code to the
--     copies that the driver makes, and EndToEnd has it on the driver's device. Machine is a
--     concrete process with its memory.
--   System: the driver and the program on each endpoint: Built on the monitor and the target that
--     main.cc builds, Device on `matrix_multiplier_pcie`. Traced records the accesses that the
--     driver makes. RegisterMap is what `print_device_info` of custom-endpoint/pcie_system_top.h
--     says of the registers, and Rules and Compliant are the TLM-2.0 base protocol and all
--     targets of custom-endpoint.
--   Tlm: the TLM-2.0 payload, the transport call as an interface, and the responses in use.
--   Prelude: numbers, lists, bytes and bits.
--
-- Conventions. Registers and addresses are ℕ with the wrap of their C type written out. A float
-- is its 32-bit pattern, and its addition and multiplication are parameters (`FloatOps`), so
-- nothing is claimed of rounding. Simulated time is kept as the number of nanoseconds that a
-- thread sleeps. An eight-byte access of a 32-bit register reads past a local variable; what lies
-- there is an argument (`behind`). `notify` of an event is a change of the state of the thread
-- that waits for it.
--
-- Bounds and fuel. A multiplication of size n suspends n + 3 times, so that `resume` is given n +
-- 4 rounds; further rounds change nothing. The loops of the source are recursions on the number
-- of rounds left, which the callers give as the loop bounds of the source.
--
-- Not modelled: console output except where it is a component's whole effect; the remote-port
-- library, the PCIe controller, QEMU and the kernel, which are other projects; the creation and
-- the binding of modules, and the configuration of the PCIe controller: the two that
-- custom-endpoint fills in are comments, and the constants of custom-endpoint/pci-defs-fix.h are
-- used only there.
pub mod Prelude
pub mod Tlm
pub mod Device
pub mod Testbench
pub mod Driver
pub mod Server
pub mod App
pub mod System
