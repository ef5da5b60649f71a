-- ===== src/Testbench/Mmio.antt =====
-- The register accesses of `test_driver`. Its socket is bound to the device's BAR0 socket.
use pcie_systemc_linux.Prelude.{ℕ}
use pcie_systemc_linux.Prelude.Bytes.{le_bytes, from_le}
use pcie_systemc_linux.Tlm.{Command, request}
use pcie_systemc_linux.Device.State.{Device}
use pcie_systemc_linux.Device.Mmio.{bar0_b_transport}

-- The device after an access, what was read, and the time that the driver then waits, in ns.
pub record Access : Type 0 where
  pub device : Device
  pub value : ℕ
  pub delay : ℕ

-- `garbage` is the uninitialised variable `data`.
unfoldable pub mmio_read32 : ℕ → Device → ℕ → ℕ → Access
unfolding bar0_b_transport
mmio_read32 behind d addr garbage =
    let r = bar0_b_transport behind d (request Command.read addr (le_bytes 4 garbage) 4) 0 in
    record { device = r.state; value = from_le r.trans.buffer; delay = r.delay }

unfoldable pub mmio_write32 : ℕ → Device → ℕ → ℕ → Access
unfolding bar0_b_transport
mmio_write32 behind d addr value =
    let r = bar0_b_transport behind d (request Command.write addr (le_bytes 4 value) 4) 0 in
    record { device = r.state; value = 0; delay = r.delay }

unfoldable pub mmio_write64 : ℕ → Device → ℕ → ℕ → Access
unfolding bar0_b_transport
mmio_write64 behind d addr value =
    let r = bar0_b_transport behind d (request Command.write addr (le_bytes 8 value) 8) 0 in
    record { device = r.state; value = 0; delay = r.delay }
