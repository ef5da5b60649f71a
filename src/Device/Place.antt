-- ===== src/Device/Place.antt =====
-- Where the compute thread stands, over the steps of the device that are not its own.
use pcie_systemc_linux.Device.Access.{accessed_both, controlled_all, value_of, value64_of}
use mathlib.Core.Path.{subst}
use pcie_systemc_linux.Prelude.{ℕ, ◌≡◌, sym, ◌⊎◌, inl, inr, arith}
use pcie_systemc_linux.Tlm.{Payload}
use pcie_systemc_linux.Device.State.{
  Device, ComputeThread, interrupt_controller, update_interrupt, notify_start, reset_device,
}
use pcie_systemc_linux.Device.Mmio.{bar0_b_transport, write_register, write_control}

-- A write notifies the thread at most.
write_register-compute :
    (d : Device) (addr len v v64 : ℕ)
    → ((write_register d addr len v v64).compute ≡ d.compute)
      ⊎ ((write_register d addr len v v64).compute ≡ notify_start d.compute)
unfolding write_register write_control update_interrupt reset_device
write_register-compute d addr len v v64 = ground arith

module _ (P : ComputeThread → Type 0) (keeps : (t : ComputeThread) → P t → P (notify_start t)) where
  write_register-keeps :
      (d : Device) (addr len v v64 : ℕ) → P d.compute → P (write_register d addr len v v64).compute
  write_register-keeps d addr len v v64 h = elim (write_register-compute d addr len v v64) [
    | inl same ↦ subst P (sym same) h
    | inr notified ↦ subst P (sym notified) (keeps d.compute h)
  ]

  pub bar0_b_transport-keeps :
      (behind : ℕ) (d : Device) (trans : Payload) (delay : ℕ)
      → P d.compute
      → P (bar0_b_transport behind d trans delay).state.compute
  bar0_b_transport-keeps behind d trans delay h =
      accessed_both (λ (x : Device). P x.compute) behind d trans delay h
        (write_register-keeps d trans.address trans.length (value_of trans) (value64_of trans) h)

  pub interrupt_controller-keeps : (d : Device) → P d.compute → P (interrupt_controller d).compute
  interrupt_controller-keeps d h = controlled_all (λ (x : Device). P x.compute) d (λ t line. h)
