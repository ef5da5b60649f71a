-- ===== src/Device/Access.antt =====
-- What holds after an access of BAR0 and after a step of the interrupt controller, from what
-- holds of the registers' writes.
use pcie_systemc_linux.Prelude.{ℕ, Bool, not, ◌&&◌, ◌==◌, if_both, if◌then◌else◌, take}
use pcie_systemc_linux.Prelude.Bytes.{from_le}
use pcie_systemc_linux.Tlm.{Payload, Outcome, Command, ignore}
use pcie_systemc_linux.Device.State.{
  Device, ControllerThread, unstarted, starting, waiting, woken, interrupt_controller,
  drive_interrupt,
}
use pcie_systemc_linux.Device.Mmio.{bar0_b_transport, dispatch, handle_mmio_write, write_register}

-- `value` and `value64` of `handle_mmio_write`.
abbrev pub value_of : Payload → ℕ
value_of trans = if trans.length == 4 then from_le (take 4 trans.buffer) else 0

abbrev pub value64_of : Payload → ℕ
value64_of trans = if trans.length == 8 then from_le (take 8 trans.buffer) else 0

-- An access leaves the device, or writes one of its registers.
pub accessed_both {ℓ} :
    (P : Device → Type ℓ) (behind : ℕ) (d : Device) (trans : Payload) (delay : ℕ)
    → P d
    → P (write_register d trans.address trans.length (value_of trans) (value64_of trans))
    → P (bar0_b_transport behind d trans delay).state
unfolding bar0_b_transport dispatch handle_mmio_write
accessed_both P behind d trans delay same written =
    if_both (λ (x : Outcome Device). P x.state) (not (trans.length == 4) && not (trans.length == 8))
      _ _ same (dispatched trans.command)
  where
    dispatched : (c : Command) → P (dispatch c d trans behind).0
    dispatched Command.read = same
    dispatched Command.write = written
    dispatched ignore = same

-- A step of the interrupt controller changes where it stands, and the line.
pub controlled_all {ℓ} :
    (P : Device → Type ℓ) (d : Device)
    → ((t : ControllerThread) (line : Bool) → P (record d { controller = t; interrupt = line }))
    → P (interrupt_controller d)
unfolding interrupt_controller
controlled_all P d all = driven d.controller
  where
    driven : (t : ControllerThread) → P (drive_interrupt t d)
    driven unstarted = all d.controller d.interrupt
    driven starting = all waiting d.interrupt
    driven waiting = all d.controller d.interrupt
    driven woken = all waiting _
