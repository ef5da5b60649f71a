-- ===== src/Device/Requests/Job.antt =====
-- The device as its software sees it: a machine for one job at a time, of which the device
-- without resets is a refinement.
use pcie_systemc_linux.Device.Access.{accessed_both, controlled_all, value_of, value64_of}
use mathlib.Core.Path.{subst}
use mathlib.Core.Bool.{false≢true}
use pcie_systemc_linux.Prelude.{
  ℕ, ◌≡◌, refl, sym, ap, ap₂, ◌∙◌, Bool, true, false, ◌&&◌, ◌==◌, Bool-cases, inl, inr, if_both,
  if◌then◌else◌, arith,
}
use pcie_systemc_linux.Tlm.{Payload, Transport}
use pcie_systemc_linux.Device.State.{
  Device, ComputeThread, waiting, woken, running, interrupt_controller, bit_set, ctrl_reset,
  ctrl_start, status_idle, reg_control_offset, update_interrupt, notify_start,
}
use pcie_systemc_linux.Device.Mmio.{bar0_b_transport, write_register, write_control}
use pcie_systemc_linux.Device.Steps.{busy as busy_device, compute_thread-cases}
use pcie_systemc_linux.Device.Compute.{FloatOps, finish, compute_thread}
use pcie_systemc_linux.Device.Line.Level.{resets}
use pcie_systemc_linux.Device.Requests.Served.{Serves-IsServed, Serves, Unreset, Unreset-Serves}

-- Idle since the start, with the last job done or failed; a job requested; a job under way.
pub data Job : Type 0 where
  idle done failed pending busy : Job

-- The job that a place of the thread and a STATUS stand for.
abbrev pub job_of : ComputeThread → ℕ → Job
job_of waiting status = if status == 5 then done else if status == 9 then failed else idle
job_of woken status = pending
job_of (running p) status = busy

abbrev pub job : Device → Job
job d = job_of d.compute d.reg_status

abbrev pub IsResting : Job → Type 0
IsResting idle = Unit {0}
IsResting done = Unit {0}
IsResting failed = Unit {0}
IsResting pending = ⊥
IsResting busy = ⊥

-- What software can do to the job, and what the device does by itself.
pub data Request : Job → Job → Type 0 where
  none : {j : Job} → Request j j
  requests : {j : Job} → IsResting j → Request j pending

pub data Progresses : Job → Job → Type 0 where
  stays : {j : Job} → Progresses j j
  begins : Progresses pending busy
  refuses : Progresses pending failed
  completes : Progresses busy done
  fails : Progresses busy failed

job_of-waiting-IsResting : (status : ℕ) → IsResting (job_of waiting status)
job_of-waiting-IsResting status =
    if_both IsResting (status == 5) done _ tt (if_both IsResting (status == 9) failed idle tt tt)

start-Request :
    (t : ComputeThread) (status : ℕ) → Request (job_of t status) (job_of (notify_start t) status)
start-Request waiting status = requests (job_of-waiting-IsResting status)
start-Request woken status = none
start-Request (running p) status = none

abbrev Requests : Device → Device → Type 0
Requests d d' = Request (job d) (job d')

write_control-Requests :
    (d : Device) (v : ℕ) → bit_set v ctrl_reset ≡ false → Requests d (write_control d v)
unfolding write_control
write_control-Requests d v h = rw h (
    if_both (Requests d) (bit_set v ctrl_start && bit_set d.reg_status status_idle) _ _
      (start-Request d.compute d.reg_status) none)

write_register-other :
    (d : Device) (addr len v v64 : ℕ)
    → (addr == reg_control_offset) ≡ false
    → (d.compute ≡ (write_register d addr len v v64).compute)
      × (d.reg_status ≡ (write_register d addr len v v64).reg_status)
unfolding write_register update_interrupt
write_register-other d addr len v v64 e = ground arith

write_register-Requests :
    (d : Device) (addr len v v64 : ℕ)
    → ((addr == reg_control_offset) && bit_set v ctrl_reset) ≡ false
    → Requests d (write_register d addr len v v64)
unfolding write_register
write_register-Requests d addr len v v64 h = elim (Bool-cases (addr == reg_control_offset)) [
  | inl control ↦
      rw control
        (write_control-Requests d v (sym (ap (λ t. t && bit_set v ctrl_reset) control) ∙ h))
  | inr other ↦
      let (place, status) = write_register-other d addr len v v64 other in
      subst (Request (job d)) (ap₂ job_of place status) none
]

bar0_b_transport-Requests :
    (behind : ℕ) (d : Device) (trans : Payload) (delay : ℕ)
    → resets trans ≡ false
    → Requests d (bar0_b_transport behind d trans delay).state
bar0_b_transport-Requests behind d trans delay h =
    accessed_both (Requests d) behind d trans delay none
      (write_register-Requests d trans.address trans.length (value_of trans) (value64_of trans) h)

interrupt_controller-job : (d : Device) → job (interrupt_controller d) ≡ job d
interrupt_controller-job d = controlled_all (λ d'. job d' ≡ job d) d (λ t line. refl)

finish-Progresses : (success : Bool) (d : Device) → Progresses Job.busy (job (finish success d))
unfolding finish update_interrupt
finish-Progresses true d = completes
finish-Progresses false d = fails

finish-refuses : (d : Device) → job (finish false d) ≡ failed
unfolding finish update_interrupt
finish-refuses d = refl

compute_thread-Progresses :
    (float : FloatOps) {M : Type 0} (transport : Transport M) (m : M) (d : Device)
    → Serves d
    → Progresses (job d) (job (compute_thread float transport d m).device)
compute_thread-Progresses float transport m d i =
    compute_thread-cases float transport m (λ x. Progresses (job d) (job x)) d (λ e. stays)
      (λ e r. absurd (false≢true (sym r ∙ (Serves-IsServed d woken e i).0)))
      (λ e r.
        from woken e _ (subst (Progresses pending) (sym (finish-refuses (busy_device d))) refuses))
      (λ e r q. from woken e _ begins) (λ p e q. from (running p) e _ stays)
      (λ p e success. from (running p) e _ (finish-Progresses success d))
  where
    from :
        (t : ComputeThread)
        → d.compute ≡ t
        → (j : Job) → Progresses (job_of t d.reg_status) j
        → Progresses (job d) j
    from t e j h = subst (λ t. Progresses (job_of t d.reg_status) j) (sym e) h

-- The device, between resets, is a machine for one job at a time: an access of BAR0 without RESET
-- leaves the job, or requests one while none is pending or under way; a step of the compute
-- thread leaves the job, begins or refuses the pending one, or completes or fails the one under
-- way; and the interrupt controller leaves it.
pub job-refines :
    (float : FloatOps) (d : Device)
    → Unreset float d
    → (behind : ℕ) (trans : Payload) (delay : ℕ) → resets trans ≡ false
    → {M : Type 0} (transport : Transport M) (m : M)
    → Request (job d) (job (bar0_b_transport behind d trans delay).state)
      × Progresses (job d) (job (compute_thread float transport d m).device)
      × (job (interrupt_controller d) ≡ job d)
job-refines float d r behind trans delay h transport m = (
  bar0_b_transport-Requests behind d trans delay h,
  compute_thread-Progresses float transport m d (Unreset-Serves float d r),
  interrupt_controller-job d,
)
