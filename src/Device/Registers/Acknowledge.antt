-- ===== src/Device/Registers/Acknowledge.antt =====
-- Writes to `REG_INT_STATUS`.
use pcie_systemc_linux.Prelude.{ℕ, ◌-◌, ◌^◌, ◌<◌, ◌≡◌, ap, ◌∙◌, min, bit_and}
use pcie_systemc_linux.Prelude.Bits.{bit_at, bit_not, bit_at-bit_and, bit_at-bit_not}
use pcie_systemc_linux.Device.State.{Device, update_interrupt, notify_update, reg_int_status_offset}
use pcie_systemc_linux.Device.Mmio.{write_register}
use pcie_systemc_linux.Device.Registers.Words.{write_access}
use pcie_systemc_linux.Testbench.Mmio.{mmio_write32}

acknowledged :
    (behind : ℕ) (d : Device) (v : ℕ)
    → v < 2 ^ 32
    → (mmio_write32 behind d reg_int_status_offset v).device ≡ record d {
      reg_int_status = bit_and d.reg_int_status (bit_not 32 v);
      controller = notify_update d.controller;
    }
unfolding write_register update_interrupt
acknowledged behind d v h = write_access behind d reg_int_status_offset v h

-- A four-byte write to INT_STATUS clears exactly the bits that are set in the word written, keeps
-- the others, and notifies the interrupt controller.
pub mmio_write32-int_status :
    (behind : ℕ) (d : Device) (v k : ℕ)
    → v < 2 ^ 32
    → k < 32
    → (bit_at (mmio_write32 behind d reg_int_status_offset v).device.reg_int_status k
        ≡ min (bit_at d.reg_int_status k) (1 - bit_at v k))
      × ((mmio_write32 behind d reg_int_status_offset v).device.controller
          ≡ notify_update d.controller)
mmio_write32-int_status behind d v k h l =
    let e = acknowledged behind d v h in
    (
      ap (λ (x : Device). bit_at x.reg_int_status k) e
          ∙ bit_at-bit_and d.reg_int_status (bit_not 32 v) k
          ∙ ap (min (bit_at d.reg_int_status k)) (bit_at-bit_not 32 v k h l),
      ap (λ (x : Device). x.controller) e,
    )
