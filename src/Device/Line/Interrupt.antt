-- ===== src/Device/Line/Interrupt.antt =====
-- The interrupt line: `interrupt_controller` keeps it at `reg_int_status & reg_int_enable`.
use mathlib.Core.Path.{subst}
use pcie_systemc_linux.Prelude.{
  ℕ, ◌+◌, ◌≡◌, refl, sym, ap, ap₂, ◌∙◌, inl, inr, Bool, true, false, ◌&&◌, ◌==◌, Bool-cases,
  if_both, bit_and, bit_or, arith,
}
use pcie_systemc_linux.Prelude.Bits.{bit_not, bit_and-le_left, bit_and-zero_right}
use pcie_systemc_linux.Tlm.{Transport}
use pcie_systemc_linux.Device.State.{
  Device, ControllerThread, unstarted, update_interrupt, notify_update, interrupt_controller,
  drive_interrupt, bit_set, ctrl_reset, ctrl_start, status_idle, reg_control_offset,
  reg_dim_n_offset, reg_matrix_a_ptr_offset, reg_matrix_b_ptr_offset, reg_matrix_c_ptr_offset,
  reg_int_status_offset, reg_int_enable_offset,
}
use pcie_systemc_linux.Device.Mmio.{write_register, write_control}
use pcie_systemc_linux.Device.Steps.{busy, compute_thread-cases}
use pcie_systemc_linux.Device.Compute.{FloatOps, finish, compute_thread}

abbrev pub level : Device → Bool
level d = bit_set d.reg_int_status d.reg_int_enable

-- What a step does to the line's inputs: nothing, or a notification. The first notification only
-- starts the controller, so it must not come with a level that is high.
pub data Change (d d' : Device) : Type 0 where
  same :
      d'.controller ≡ d.controller
      → d'.interrupt ≡ d.interrupt
      → d'.reg_int_status ≡ d.reg_int_status
      → d'.reg_int_enable ≡ d.reg_int_enable
      → Change d d'
  notified :
      d'.controller ≡ notify_update d.controller
      → (d.reg_int_status ≡ 0
          → d.reg_int_enable ≡ 0
          → bit_and d'.reg_int_status d'.reg_int_enable ≡ 0)
      → d'.interrupt ≡ d.interrupt
      → Change d d'

-- The controller waits and the line is at its level, or nothing has happened yet.
pub data IsLevel (d : Device) : Type 0 where
  driven : d.controller ≡ ControllerThread.waiting → d.interrupt ≡ level d → IsLevel d
  fresh :
      d.controller ≡ unstarted
      → d.interrupt ≡ false
      → d.reg_int_status ≡ 0
      → d.reg_int_enable ≡ 0
      → IsLevel d

pub zero_left : (v : ℕ) → bit_and 0 v ≡ 0
zero_left v = omega (arith, bit_and-le_left 0 v)

pub level_zero : (d : Device) → bit_and d.reg_int_status d.reg_int_enable ≡ 0 → level d ≡ false
level_zero d e = rw e refl

-- The controller's step from where it stands.
controlled_at :
    (t : ControllerThread) (d : Device)
    → d.controller ≡ t
    → IsLevel (drive_interrupt t d)
    → IsLevel (interrupt_controller d)
unfolding interrupt_controller
controlled_at t d e i = subst (λ t. IsLevel (drive_interrupt t d)) (sym e) i

pub controller-IsLevel :
    (d d' : Device) → IsLevel d → Change d d' → IsLevel (interrupt_controller d')
controller-IsLevel d d' (driven c l) (same c' n s e) =
    controlled_at _ d' (c' ∙ c) (driven (c' ∙ c) (n ∙ l ∙ sym (ap₂ bit_set s e)))
controller-IsLevel d d' (driven c l) (notified c' z n) =
    controlled_at _ d' (c' ∙ ap notify_update c) (driven refl refl)
controller-IsLevel d d' (fresh c f p q) (same c' n s e) =
    controlled_at _ d' (c' ∙ c) (fresh (c' ∙ c) (n ∙ f) (s ∙ p) (e ∙ q))
controller-IsLevel d d' (fresh c f p q) (notified c' z n) =
    controlled_at _ d' (c' ∙ ap notify_update c) (driven refl (n ∙ f ∙ sym (level_zero d' (z p q))))

pub unchanged : (d : Device) → Change d d
unchanged d = same refl refl refl refl

-- The compute thread notifies the controller when it ends a multiplication, and else leaves it.
finish-Change :
    (success : Bool) (d d' : Device)
    → d'.controller ≡ d.controller
    → d'.interrupt ≡ d.interrupt
    → d'.reg_int_status ≡ d.reg_int_status
    → d'.reg_int_enable ≡ d.reg_int_enable
    → Change d (finish success d')
unfolding finish update_interrupt
finish-Change true d d' c n s e =
    notified (ap notify_update c)
      (λ p q. ap (bit_and (bit_or d'.reg_int_status 1)) (e ∙ q) ∙ bit_and-zero_right _) n
finish-Change false d d' c n s e =
    notified (ap notify_update c) (λ p q. ap₂ bit_and (s ∙ p) (e ∙ q) ∙ zero_left 0) n

pub compute_thread-Change :
    (float : FloatOps) {M : Type 0} (transport : Transport M) (d : Device) (m : M)
    → Change d (compute_thread float transport d m).device
compute_thread-Change float transport d m =
    compute_thread-cases float transport m (Change d) d (λ e. unchanged d)
      (λ e r. same refl refl refl refl) (λ e r. finish-Change false d (busy d) refl refl refl refl)
      (λ e r q. same refl refl refl refl) (λ p e q. same refl refl refl refl)
      (λ p e success. finish-Change success d d refl refl refl refl)

-- A write without RESET notifies the controller if it touches INT_STATUS or INT_ENABLE.
write_control-Change :
    (d : Device) (v : ℕ) → bit_set v ctrl_reset ≡ false → Change d (write_control d v)
unfolding write_control
write_control-Change d v h = rw h (
    if_both (Change d) (bit_set v ctrl_start && bit_set d.reg_status status_idle) _ _
      (same refl refl refl refl) (same refl refl refl refl))

pub write_register-Change :
    (d : Device) (addr len v v64 : ℕ)
    → ((addr == reg_control_offset) && bit_set v ctrl_reset) ≡ false
    → Change d (write_register d addr len v v64)
unfolding write_register update_interrupt
write_register-Change d addr len v v64 h = elim (Bool-cases (addr == reg_control_offset)) [
  | inl control ↦
      rw control (write_control-Change d v (sym (ap (λ t. t && bit_set v ctrl_reset) control) ∙ h))
  | inr other ↦ rw other (
      if_both (Change d) (addr == reg_dim_n_offset) _ _ (same refl refl refl refl) (
        if_both (Change d) (addr == reg_matrix_a_ptr_offset) _ _ (same refl refl refl refl) (
          if_both (Change d) (addr == (reg_matrix_a_ptr_offset + 4)) _ _ (same refl refl refl refl)
            (if_both (Change d) (addr == reg_matrix_b_ptr_offset) _ _ (same refl refl refl refl) (
              if_both (Change d) (addr == (reg_matrix_b_ptr_offset + 4)) _ _
                (same refl refl refl refl)
                (if_both (Change d) (addr == reg_matrix_c_ptr_offset) _ _ (same refl refl refl refl)
                  (if_both (Change d) (addr == (reg_matrix_c_ptr_offset + 4)) _ _
                    (same refl refl refl refl)
                    (if_both (Change d) (addr == reg_int_status_offset) _ _
                      (notified refl
                        (λ p q.
                          ap₂ bit_and (ap (λ t. bit_and t (bit_not 32 v)) p ∙ zero_left _) q
                          ∙ zero_left 0)
                        refl)
                      (if_both (Change d) (addr == reg_int_enable_offset) _ d
                        (notified refl (λ p q. ap (λ t. bit_and t v) p ∙ zero_left v) refl)
                        (unchanged d))))))))))
]
