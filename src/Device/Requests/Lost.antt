-- ===== src/Device/Requests/Lost.antt =====
-- RESET and START while a multiplication runs.
use mathlib.Core.Path.{subst}
use pcie_systemc_linux.Prelude.{
  ℕ, zero, suc, ◌-◌, ◌≤◌, ◌≡◌, refl, sym, ap, ◌∙◌, inl, inr, Bool, true, false, Bool-cases, arith,
}
use pcie_systemc_linux.Prelude.Bytes.{le_bytes}
use pcie_systemc_linux.Tlm.{Command, Transport, request}
use pcie_systemc_linux.Device.State.{
  Device, Progress, ComputeThread, waiting, woken, running, notify_start, update_interrupt,
  reset_device,
}
use pcie_systemc_linux.Device.Mmio.{bar0_b_transport}
use pcie_systemc_linux.Device.Steps.{compute_thread-cases}
use pcie_systemc_linux.Device.Compute.{FloatOps, finish, compute_thread, resume_thread}
use pcie_systemc_linux.Device.Multiply.Run.{resume}
use pcie_systemc_linux.Device.History.{Reachable, Reachable-IsSound, accessed, computed}
use pcie_systemc_linux.Device.Multiply.Liveness.{
  remaining, is_waiting, waits_at_zero, away-suc, compute_thread-Leaves,
}

-- A thread that no event has woken.
abbrev IsUnwoken : ComputeThread → Type 0
IsUnwoken waiting = Unit {0}
IsUnwoken woken = ⊥
IsUnwoken (running p) = Unit {0}

-- A request that nothing serves.
abbrev IsLost : Device → Type 0
IsLost d = IsUnwoken d.compute × (d.computation_requested ≡ true)

is_waiting-waiting : (t : ComputeThread) → is_waiting t ≡ true → t ≡ waiting
is_waiting-waiting waiting w = refl
is_waiting-waiting woken w = absurd (grind arith)
is_waiting-waiting (running p) w = absurd (grind arith)

-- CONTROL written with RESET and START.
abbrev pub restarted : (behind : ℕ) → Device → Device
restarted behind d = (bar0_b_transport behind d (request Command.write 0 (le_bytes 4 3) 4) 0).state

module _ (float : FloatOps) {M : Type 0} (transport : Transport M) where
  finish-IsLost :
      (success : Bool) (d : Device) → d.computation_requested ≡ true → IsLost (finish success d)
  unfolding finish update_interrupt
  finish-IsLost true d h = (tt, h)
  finish-IsLost false d h = (tt, h)

  compute_thread-IsLost :
      (d : Device) (m : M) → IsLost d → IsLost (compute_thread float transport d m).device
  compute_thread-IsLost d m (unwoken, h) =
      compute_thread-cases float transport m IsLost d (λ e. (unwoken, h))
        (λ e r. absurd (subst IsUnwoken e unwoken)) (λ e r. absurd (subst IsUnwoken e unwoken))
        (λ e r q. absurd (subst IsUnwoken e unwoken)) (λ p e q. (tt, h))
        (λ p e success. finish-IsLost success d h)

  waiting-stays :
      (d : Device) (m : M)
      → d.compute ≡ waiting
      → (compute_thread float transport d m).device.compute ≡ waiting
  unfolding compute_thread resume_thread
  waiting-stays d m e =
      subst (λ t. (resume_thread float transport t d m).device.compute ≡ waiting) (sym e) e

  -- One round less.
  nearer :
      (k : ℕ) (d : Device) (m : M)
      → Reachable float d
      → remaining d.compute ≤ suc k
      → remaining (compute_thread float transport d m).device.compute ≤ k
  nearer k d m r h = elim (Bool-cases (is_waiting d.compute)) [
    | inl w ↦ rw (waiting-stays d m (is_waiting-waiting d.compute w)) (omega arith)
    | inr away ↦ omega (
      arith,
      away-suc d.compute away,
      compute_thread-Leaves float transport m d (remaining d.compute - 1)
          (Reachable-IsSound float d r).sized (away-suc d.compute away),
    )
  ]

  resume-IsLost :
      (k : ℕ) (d : Device) (m : M)
      → Reachable float d
      → IsLost d
      → remaining d.compute ≤ k
      → ((resume float transport k d m).0.compute ≡ waiting)
        × ((resume float transport k d m).0.computation_requested ≡ true)
  unfolding resume
  resume-IsLost zero d m r h l =
      (is_waiting-waiting d.compute (waits_at_zero d.compute (omega arith)), h.1)
  resume-IsLost (suc k) d m r h l =
      resume-IsLost k (compute_thread float transport d m).device _ (computed transport m r)
        (compute_thread-IsLost d m h) (nearer k d m r l)

  -- A START that comes with a RESET while a multiplication runs, in any history, is lost: STATUS reads IDLE
  -- at once, the multiplication goes on, and as soon as it has ended, and however long one waits then, the
  -- thread waits for an event while the request is still set.
  pub restarted-lost :
      (behind : ℕ) (d : Device) (m : M) (p : Progress) (k : ℕ)
      → Reachable float d
      → d.compute ≡ running p
      → remaining d.compute ≤ k
      → ((restarted behind d).reg_status ≡ 1)
        × ((restarted behind d).compute ≡ running p)
        × ((resume float transport k (restarted behind d) m).0.compute ≡ waiting)
        × ((resume float transport k (restarted behind d) m).0.computation_requested ≡ true)
  unfolding bar0_b_transport reset_device
  restarted-lost behind d m p k r e h =
      let runs : (restarted behind d).compute ≡ running p = ap notify_start e in
      let (waits, pending) =
        resume-IsLost k (restarted behind d) m
          (accessed behind (request Command.write 0 (le_bytes 4 3) 4) 0 r)
          (subst IsUnwoken (sym runs) tt, refl) (subst (λ t. remaining t ≤ k) (e ∙ sym runs) h) in
      (refl, runs, waits, pending)
