-- ===== src/Device/Requests/Served.antt =====
-- Requests and the thread that serves them, in every history of the device without a reset.
use pcie_systemc_linux.Device.Access.{accessed_both, controlled_all, value_of, value64_of}
use mathlib.Core.Path.{subst}
use mathlib.Core.Bool.{false≢true}
use pcie_systemc_linux.Prelude.{
  ℕ, ◌≡◌, refl, sym, ap, ◌∙◌, ◌⊎◌, inl, inr, Bool, true, false, ◌&&◌, ◌==◌, Bool-cases, arith,
}
use pcie_systemc_linux.Tlm.{Payload, Transport}
use pcie_systemc_linux.Device.State.{
  Device, ComputeThread, waiting, woken, running, start_of_simulation, interrupt_controller,
  bit_set, ctrl_reset, ctrl_start, status_idle, reg_control_offset, update_interrupt, notify_start,
}
use pcie_systemc_linux.Device.Mmio.{bar0_b_transport, write_register, write_control}
use pcie_systemc_linux.Device.Steps.{busy, compute_thread-cases}
use pcie_systemc_linux.Device.Compute.{FloatOps, finish, compute_thread}
use pcie_systemc_linux.Device.Line.Level.{resets}

-- IDLE, IDLE and DONE, or IDLE and ERROR.
abbrev pub IsIdle : ℕ → Type 0
IsIdle s = (s ≡ 1) ⊎ (s ≡ 5) ⊎ (s ≡ 9)

-- A request is pending exactly if the thread has been woken for it, and STATUS is BUSY exactly
-- while the thread is inside a multiplication.
abbrev pub IsServed : ComputeThread → Bool → ℕ → Type 0
IsServed waiting request status = (request ≡ false) × IsIdle status
IsServed woken request status = (request ≡ true) × IsIdle status
IsServed (running p) request status = (request ≡ false) × (status ≡ 2)

abbrev pub Serves : Device → Type 0
Serves d = IsServed d.compute d.computation_requested d.reg_status

idle-bit : (s : ℕ) → IsIdle s → bit_set s status_idle ≡ true
idle-bit s (inl e) = rw e refl
idle-bit s (inr (inl e)) = rw e refl
idle-bit s (inr (inr e)) = rw e refl

-- START, in each place of the thread.
started_at :
    (t : ComputeThread) (request : Bool) (s : ℕ)
    → IsServed t request s
    → bit_set s status_idle ≡ true
    → IsServed (notify_start t) true s
started_at waiting request s h e = (refl, h.1)
started_at woken request s h e = (refl, h.1)
started_at (running p) request s h e = cc (h.1, e)

write_control-Serves :
    (d : Device) (v : ℕ) → bit_set v ctrl_reset ≡ false → Serves d → Serves (write_control d v)
unfolding write_control
write_control-Serves d v h i = rw h (elim (Bool-cases (bit_set v ctrl_start)) [
  | inl start ↦ rw start (elim (Bool-cases (bit_set d.reg_status status_idle)) [
    | inl idle ↦ rw idle (started_at d.compute d.computation_requested d.reg_status i idle)
    | inr busy ↦ rw busy i
  ])
  | inr no_start ↦ rw no_start i
])

-- The other registers have no part in it.
write_register-other :
    (d : Device) (addr len v v64 : ℕ)
    → (addr == reg_control_offset) ≡ false
    → Serves d
    → Serves (write_register d addr len v v64)
unfolding write_register update_interrupt
write_register-other d addr len v v64 e i = ground (arith, i)

write_register-Serves :
    (d : Device) (addr len v v64 : ℕ)
    → ((addr == reg_control_offset) && bit_set v ctrl_reset) ≡ false
    → Serves d
    → Serves (write_register d addr len v v64)
unfolding write_register
write_register-Serves d addr len v v64 h i = elim (Bool-cases (addr == reg_control_offset)) [
  | inl control ↦
      rw control
        (write_control-Serves d v (sym (ap (λ t. t && bit_set v ctrl_reset) control) ∙ h) i)
  | inr other ↦ write_register-other d addr len v v64 other i
]

bar0_b_transport-Serves :
    (behind : ℕ) (d : Device) (trans : Payload) (delay : ℕ)
    → resets trans ≡ false
    → Serves d
    → Serves (bar0_b_transport behind d trans delay).state
bar0_b_transport-Serves behind d trans delay h i =
    accessed_both Serves behind d trans delay i
      (write_register-Serves d trans.address trans.length (value_of trans) (value64_of trans) h i)

finish-Serves :
    (success : Bool) (d : Device) → d.computation_requested ≡ false → Serves (finish success d)
unfolding finish update_interrupt
finish-Serves true d r = (r, inr (inl refl))
finish-Serves false d r = (r, inr (inr refl))

pub Serves-IsServed :
    (d : Device) (t : ComputeThread)
    → d.compute ≡ t
    → Serves d
    → IsServed t d.computation_requested d.reg_status
Serves-IsServed d t e i = subst (λ t. IsServed t d.computation_requested d.reg_status) e i

compute_thread-Serves :
    (float : FloatOps) {M : Type 0} (transport : Transport M) (m : M) (d : Device)
    → Serves d
    → Serves (compute_thread float transport d m).device
compute_thread-Serves float transport m d i =
    compute_thread-cases float transport m Serves d (λ e. i)
      (λ e r. absurd (false≢true (sym r ∙ (Serves-IsServed d woken e i).0)))
      (λ e r. finish-Serves false (busy d) refl) (λ e r q. (refl, refl))
      (λ p e q. Serves-IsServed d (running p) e i)
      (λ p e success. finish-Serves success d (Serves-IsServed d (running p) e i).0)

interrupt_controller-Serves : (d : Device) → Serves d → Serves (interrupt_controller d)
interrupt_controller-Serves d i = controlled_all Serves d (λ t line. i)

-- Histories in which no transaction resets the device; its threads run in any order.
pub data Unreset (float : FloatOps) : Device → Type 1 where
  started : Unreset float start_of_simulation
  accessed :
      {d : Device} (behind : ℕ) (trans : Payload) (delay : ℕ)
      → resets trans ≡ false
      → Unreset float d
      → Unreset float (bar0_b_transport behind d trans delay).state
  computed :
      {d : Device} {M : Type 0} (transport : Transport M) (m : M)
      → Unreset float d
      → Unreset float (compute_thread float transport d m).device
  controlled : {d : Device} → Unreset float d → Unreset float (interrupt_controller d)

-- No request is lost: in every history without a reset, a request is pending exactly if the compute
-- thread has been woken and is about to serve it, and STATUS reads BUSY exactly while the thread is
-- inside a multiplication, and else IDLE alone, with DONE, or with ERROR.
pub Unreset-Serves : (float : FloatOps) (d : Device) → Unreset float d → Serves d
Unreset-Serves float _ started = (refl, inl refl)
Unreset-Serves float _ (accessed {d} behind trans delay h r) =
    bar0_b_transport-Serves behind d trans delay h (Unreset-Serves float d r)
Unreset-Serves float _ (computed {d} transport m r) =
    compute_thread-Serves float transport m d (Unreset-Serves float d r)
Unreset-Serves float _ (controlled {d} r) = interrupt_controller-Serves d (Unreset-Serves float d r)
