-- ===== src/Device/Registers/Typed.antt =====
-- The registers in every history whose transactions carry bytes.
use pcie_systemc_linux.Prelude.{ℕ, zero, suc, ◌*◌}
use pcie_systemc_linux.Prelude.Bytes.{AllBytes}
use pcie_systemc_linux.Tlm.{Payload, Transport}
use pcie_systemc_linux.Device.State.{Device, start_of_simulation, interrupt_controller}
use pcie_systemc_linux.Device.Mmio.{bar0_b_transport}
use pcie_systemc_linux.Device.Compute.{FloatOps, compute_thread}
use pcie_systemc_linux.Device.History

abbrev power_of_256 : ℕ → ℕ
power_of_256 zero = 1
power_of_256 (suc k) = 256 * power_of_256 k

-- The histories of `Reachable` whose transactions have bytes at their data pointers.
pub data Typed (float : FloatOps) : Device → Type 1 where
  started : Typed float start_of_simulation
  accessed :
      {d : Device} (behind : ℕ) (trans : Payload) (delay : ℕ)
      → AllBytes trans.buffer
      → Typed float d
      → Typed float (bar0_b_transport behind d trans delay).state
  computed :
      {d : Device} {M : Type 0} (transport : Transport M) (m : M)
      → Typed float d
      → Typed float (compute_thread float transport d m).device
  controlled : {d : Device} → Typed float d → Typed float (interrupt_controller d)
