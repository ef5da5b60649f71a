-- ===== src/Device/Line/Level.antt =====
-- The interrupt line in every history of the device without a reset.
use pcie_systemc_linux.Device.Access.{accessed_both, value_of, value64_of}
use pcie_systemc_linux.Prelude.{ℕ, ◌≡◌, refl, sym, ◌∙◌, Bool, false, ◌&&◌, ◌==◌, ap₂, bit_and}
use pcie_systemc_linux.Tlm.{Payload, Transport}
use pcie_systemc_linux.Device.State.{
  Device, start_of_simulation, interrupt_controller, bit_set, ctrl_reset, reg_control_offset,
}
use pcie_systemc_linux.Device.Mmio.{bar0_b_transport}
use pcie_systemc_linux.Device.Compute.{FloatOps, compute_thread}
use pcie_systemc_linux.Device.Line.Interrupt.{
  level, Change, IsLevel, driven, fresh, unchanged, controller-IsLevel, compute_thread-Change,
  write_register-Change, level_zero, zero_left,
}

-- A transaction that writes CONTROL with its RESET bit set.
abbrev pub resets : Payload → Bool
resets trans = (trans.address == reg_control_offset) && bit_set (value_of trans) ctrl_reset

bar0_b_transport-Change :
    (behind : ℕ) (d : Device) (trans : Payload) (delay : ℕ)
    → resets trans ≡ false
    → Change d (bar0_b_transport behind d trans delay).state
bar0_b_transport-Change behind d trans delay h =
    accessed_both (Change d) behind d trans delay (unchanged d)
      (write_register-Change d trans.address trans.length (value_of trans) (value64_of trans) h)

-- Histories in which no transaction resets the device, and the interrupt controller, if it is
-- notified, runs before the next step.
pub data Attended (float : FloatOps) : Device → Type 1 where
  started : Attended float start_of_simulation
  accessed :
      {d : Device} (behind : ℕ) (trans : Payload) (delay : ℕ)
      → resets trans ≡ false
      → Attended float d
      → Attended float (interrupt_controller (bar0_b_transport behind d trans delay).state)
  computed :
      {d : Device} {M : Type 0} (transport : Transport M) (m : M)
      → Attended float d
      → Attended float (interrupt_controller (compute_thread float transport d m).device)

Attended-IsLevel : (float : FloatOps) (d : Device) → Attended float d → IsLevel d
Attended-IsLevel float _ started = fresh refl refl refl refl
Attended-IsLevel float _ (accessed {d} behind trans delay h r) =
    controller-IsLevel d (bar0_b_transport behind d trans delay).state (Attended-IsLevel float d r)
      (bar0_b_transport-Change behind d trans delay h)
Attended-IsLevel float _ (computed {d} transport m r) =
    controller-IsLevel d (compute_thread float transport d m).device (Attended-IsLevel float d r)
      (compute_thread-Change float transport d m)

at_level : (d : Device) → IsLevel d → d.interrupt ≡ level d
at_level d (driven c l) = l
at_level d (fresh c f p q) = f ∙ sym (level_zero d (ap₂ bit_and p q ∙ zero_left 0))

-- In every history without a reset in which the controller runs between the other steps, the
-- interrupt line is high exactly if INT_STATUS and INT_ENABLE have a bit in common.
pub Attended-level : (float : FloatOps) (d : Device) → Attended float d → d.interrupt ≡ level d
Attended-level float d r = at_level d (Attended-IsLevel float d r)
