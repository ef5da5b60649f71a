-- ===== src/System/Device.antt =====
-- The driver on `matrix_multiplier_pcie`, the endpoint of pcie_system_top.h, whose register map is
-- another than the driver's.
use mathlib.Core.Path.{subst}
use pcie_systemc_linux.Prelude.{
  ℕ, Bool, false, ◌+◌, ◌*◌, ◌^◌, ◌<◌, ◌≡◌, refl, ◌/◌, ◌%◌, [], ◌∷◌, ap, ◌∙◌, sym, ==_self,
  replicate, arith,
}
use pcie_systemc_linux.Prelude.Bytes.{le_bytes, from_le, from_le-le_bytes4, words_to_bytes}
use pcie_systemc_linux.Tlm.{Command, Transport, request}
use pcie_systemc_linux.Driver.Kernel.{IoctlAbi, UserSpace, Mmio}
use pcie_systemc_linux.Driver.Ioctl.{ioctl_get_result, dev_ioctl, result_offset}
use pcie_systemc_linux.Driver.Irq.{irq_handler, irq_handled}
use pcie_systemc_linux.Driver.Lifecycle.Probe.{Replies, pci_probe}
use pcie_systemc_linux.Driver.Lifecycle.Unwind.{loaded}
use pcie_systemc_linux.Driver.Lifecycle.Accesses.{performed, pci_probe-WritesOnce}
use pcie_systemc_linux.Driver.Bus.{Reaches}
use pcie_systemc_linux.Device.State.{
  Device, ComputeThread, ControllerThread, start_of_simulation, reset_device, notify_start,
  notify_update, reg_matrix_c_ptr_offset,
}
use pcie_systemc_linux.Device.Multiply.Run.{requested}
use pcie_systemc_linux.Device.Mmio.{
  bar0_b_transport, dispatch, handle_mmio_read, write_register, write_control, handle_mmio_write,
}
use pcie_systemc_linux.Device.Compute.{FloatOps, finish, compute_thread}
use pcie_systemc_linux.Device.Registers.Bounds.{IsBounded}
use pcie_systemc_linux.System.Traced.{traced, read32, write32}
use pcie_systemc_linux.System.Alike.{dev_ioctl-alike}

-- Behind the last register every word reads alike.
undefined_word :
    (behind : ℕ) (d : Device) (offset : ℕ)
    → 0x2F < offset
    → from_le
        (bar0_b_transport behind d (request Command.read offset (le_bytes 4 0) 4) 0).trans.buffer
      ≡ 0xDEADBEEF
unfolding bar0_b_transport dispatch handle_mmio_read
undefined_word behind d offset h = ground arith

-- The device that the word 0xAB, RESET and START among its bits, leaves, if the thread was waiting.
abbrev probed : Device → Device
probed d =
    requested (record start_of_simulation { controller = d.controller; interrupt = d.interrupt })

-- A device with nothing in its registers but IDLE and ERROR, whose compute thread waits.
abbrev pub refused : ControllerThread → Bool → Device
refused controller interrupt = record {
  reg_control = 0;
  reg_status = 9;
  reg_dim_n = 0;
  reg_matrix_a_ptr = 0;
  reg_matrix_b_ptr = 0;
  reg_matrix_c_ptr = 0;
  reg_int_status = 0;
  reg_int_enable = 0;
  computation_requested = false;
  compute = ComputeThread.waiting;
  controller = controller;
  interrupt = interrupt;
}

module _ (behind : ℕ) (io : Mmio Device) (mmio : ℕ)
    (bus : Reaches (bar0_b_transport behind) io mmio) where
  read_state : (d : Device) (offset : ℕ) → offset < 2 ^ 20 → (io.ioread32 d (mmio + offset)).1 ≡ d
  unfolding bar0_b_transport
  read_state d offset h = ap (λ t. t.1) (bus.reads d offset h)

  -- The word that the driver takes for the interrupt status.
  status_word :
      (d : Device)
      → IsBounded d
      → io.ioread32 d (mmio + (reg_matrix_c_ptr_offset + 4)) ≡ (d.reg_matrix_c_ptr / 2 ^ 32, d)
  unfolding bar0_b_transport dispatch handle_mmio_read
  status_word d bounded =
      bus.reads d (reg_matrix_c_ptr_offset + 4) (omega arith)
      ∙ ap (λ v. (v, d))
          (from_le-le_bytes4 (d.reg_matrix_c_ptr / 2 ^ 32 % 2 ^ 32) (omega arith)
            ∙ omega (arith, bounded.c_ptr))

  unacknowledged : (d : Device) (v : ℕ) → io.iowrite32 d v (mmio + 0x64) ≡ d
  unfolding bar0_b_transport handle_mmio_write write_register
  unacknowledged d v = bus.writes d 0x64 v (omega arith)

  -- The driver's interrupt handler makes two accesses, for every device whose registers are within
  -- their types: it reads the high half of the C pointer as the status, and writes that word at
  -- 0x64, where a write of any word leaves the device as it was. So it reports the interrupt as
  -- handled and leaves the device as it was, INT_STATUS and the interrupt line included.
  pub irq_handler-ignored :
      (d : Device) (major v : ℕ)
      → IsBounded d
      → (irq_handler (traced io) mmio major (d, []) major ≡ (
        irq_handled,
        (
          d,
          write32 (mmio + 0x64) (d.reg_matrix_c_ptr / 2 ^ 32)
              ∷ read32 (mmio + (reg_matrix_c_ptr_offset + 4)) (d.reg_matrix_c_ptr / 2 ^ 32)
              ∷ [],
        ),
      ))
        × (io.iowrite32 d v (mmio + 0x64) ≡ d)
  unfolding irq_handler
  irq_handler-ignored d major v bounded = (
    rw (==_self major, status_word d bounded, unacknowledged d (d.reg_matrix_c_ptr / 2 ^ 32)) refl,
    unacknowledged d v,
  )

  result_word :
      (d : Device) (k : ℕ) → k < 16 → (io.ioread32 d (mmio + result_offset + k * 4)).0 ≡ 0xDEADBEEF
  result_word d k h =
      let e : mmio + result_offset + k * 4 ≡ mmio + (result_offset + k * 4) = omega arith in
      ap (λ a. (io.ioread32 d a).0) e
      ∙ ap (λ t. t.0) (bus.reads d (result_offset + k * 4) (omega arith))
      ∙ undefined_word behind d (result_offset + k * 4) (omega arith)

  -- Reading the result gives the program sixteen times the word 0xDEADBEEF, whatever the device
  -- holds.
  dev_ioctl-undefined :
      (abi : IoctlAbi) {U : Type 0} (space : UserSpace U) (u : U) (d : Device) (arg : ℕ)
      → (dev_ioctl abi space io mmio u d (ioctl_get_result abi) arg).user
        ≡ (space.copy_to_user u arg (words_to_bytes (replicate 16 0xDEADBEEF))).1
  dev_ioctl-undefined abi space u d arg =
      dev_ioctl-alike abi space io mmio 0xDEADBEEF result_word u d arg

  write_probe :
      (d : Device) → d.compute ≡ ComputeThread.waiting → io.iowrite32 d 0xAB mmio ≡ probed d
  unfolding bar0_b_transport handle_mmio_write write_register write_control reset_device
  write_probe d e =
      let at_start : mmio ≡ mmio + 0 = omega arith in
      ap (λ a. io.iowrite32 d 0xAB a) at_start
      ∙ bus.writes d 0 0xAB (omega arith)
      ∙ ap (λ t. record (probed d) { compute = notify_start t }) e

  -- A probe that succeeds, on a device whose compute thread waits, resets the device and starts it
  -- with the size 0: the thread's next step refuses the multiplication, and leaves every register
  -- 0 but STATUS, which reads IDLE and ERROR, INT_STATUS and INT_ENABLE included; it has
  -- notified the interrupt controller, left the interrupt line as it was, and touched no memory.
  pub iowrite32-probe :
      (float : FloatOps) {M : Type 0} (transport : Transport M) (r : Replies) (d : Device) (m : M)
      → r.mapping ≡ mmio
      → (pci_probe r loaded).code ≡ 0
      → d.compute ≡ ComputeThread.waiting
      → let after =
          compute_thread float transport (performed io (pci_probe r loaded).driver.calls d) m in
        (after.device ≡ refused (notify_update d.controller) d.interrupt) × (after.memory ≡ m)
  unfolding compute_thread finish
  iowrite32-probe float transport r d m mapped succeeded e =
      let written : performed io (pci_probe r loaded).driver.calls d ≡ io.iowrite32 d 0xAB mmio =
        pci_probe-WritesOnce io r d ∙ rw (succeeded, mapped) refl in
      subst
        (λ x.
          ((compute_thread float transport x m).device
            ≡ refused (notify_update d.controller) d.interrupt)
          × ((compute_thread float transport x m).memory ≡ m))
        (sym (written ∙ write_probe d e)) (refl, refl)
