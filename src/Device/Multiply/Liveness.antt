-- ===== src/Device/Multiply/Liveness.antt =====
-- A multiplication ends, whatever is written to the registers meanwhile.
use mathlib.Core.Bool.{true≢false}
use pcie_systemc_linux.Prelude.{
  ℕ, suc, ◌+◌, ◌-◌, ◌≤◌, ◌≡◌, refl, sym, ◌∙◌, inl, inr, Bool, true, false, ◌||◌, ◌==◌, ltb, ltb→lt,
  List, [], ◌∷◌, Bool-cases, if_both, replicate, arith,
}
use pcie_systemc_linux.Tlm.{Payload, Transport}
use pcie_systemc_linux.Device.State.{
  Device, Progress, ComputeThread, waiting, woken, running, reading_a, reading_b, row_done,
  writing_c, notify_start, update_interrupt, interrupt_controller,
}
use pcie_systemc_linux.Device.Mmio.{bar0_b_transport}
use pcie_systemc_linux.Device.Compute.{
  FloatOps, Suspended, elements, finish, compute_thread, accept_request, resume_thread,
  resume_multiply, perform_matrix_multiply, read_matrix_a, read_matrix_b, write_matrix_c, row_step,
}
use pcie_systemc_linux.Device.Sound.{IsSized}
use pcie_systemc_linux.Device.History.{Reachable, Reachable-IsSound, accessed, computed, controlled}
use pcie_systemc_linux.Device.Place.{bar0_b_transport-keeps, interrupt_controller-keeps}

-- The steps that the thread may still take before it waits for a request again.
abbrev pub remaining : ComputeThread → ℕ
remaining waiting = 0
remaining woken = 260
remaining (running (reading_a n matrix_a success)) = n + 3
remaining (running (reading_b n matrix_a matrix_b success)) = n + 2
remaining (running (row_done n rows matrix_a matrix_b matrix_c)) = n - rows + 2
remaining (running (writing_c n success)) = 1

module _ (float : FloatOps) {M : Type 0} (transport : Transport M) (m : M) where
  abbrev Leaves : ℕ → Suspended M → Type 0
  Leaves k x = remaining x.device.compute ≤ k

  finish-Leaves : (success : Bool) (d : Device) (k : ℕ) → remaining (finish success d).compute ≤ k
  unfolding finish update_interrupt
  finish-Leaves true d k = omega arith
  finish-Leaves false d k = omega arith

  row_step-Leaves :
      (n i : ℕ) (matrix_a matrix_b matrix_c : List ℕ) (d : Device)
      → Leaves (n - i + 1) (row_step float transport n i matrix_a matrix_b matrix_c d m)
  unfolding row_step write_matrix_c
  row_step-Leaves n i matrix_a matrix_b matrix_c d = elim (Bool-cases (ltb i n)) [
    | inl more ↦ rw more (omega (arith, ltb→lt i n more))
    | inr last ↦ rw last (omega arith)
  ]

  resume_multiply-Leaves :
      (p : Progress) (d : Device) (k : ℕ)
      → IsSized (running p)
      → remaining (running p) ≡ suc k
      → Leaves k (resume_multiply float transport p d m)
  unfolding resume_multiply read_matrix_b
  resume_multiply-Leaves (reading_a n matrix_a true) d k h e = omega arith
  resume_multiply-Leaves (reading_a n matrix_a false) d k h e = finish-Leaves false d k
  resume_multiply-Leaves (reading_b n matrix_a matrix_b true) d k h e =
      omega (arith, row_step-Leaves n 0 matrix_a matrix_b (replicate (elements n) 0) d)
  resume_multiply-Leaves (reading_b n matrix_a matrix_b false) d k h e = finish-Leaves false d k
  resume_multiply-Leaves (row_done n rows matrix_a matrix_b matrix_c) d k h e =
      omega (arith, row_step-Leaves n rows matrix_a matrix_b matrix_c d)
  resume_multiply-Leaves (writing_c n success) d k h e = finish-Leaves success d k

  accept_request-Leaves : (d : Device) → Leaves 259 (accept_request float transport d m)
  unfolding accept_request perform_matrix_multiply read_matrix_a
  accept_request-Leaves d =
      if_both (Leaves 259) d.computation_requested _ _
        (elim (Bool-cases (d.reg_dim_n == 0 || ltb 256 d.reg_dim_n)) [
          | inl bad ↦ rw bad (finish-Leaves false busy 259)
          | inr good ↦ let size : d.reg_dim_n ≤ 256 = ground arith in rw good (omega arith)
        ])
        (omega arith)
    where
      busy : Device
      busy = record d { reg_status = 2; computation_requested = false }

  -- Each step of the thread brings it nearer to its wait.
  pub compute_thread-Leaves :
      (d : Device) (k : ℕ)
      → IsSized d.compute
      → remaining d.compute ≡ suc k
      → Leaves k (compute_thread float transport d m)
  unfolding compute_thread resume_thread
  compute_thread-Leaves d k h e = resumed d.compute h e
    where
      resumed :
          (t : ComputeThread)
          → IsSized t
          → remaining t ≡ suc k
          → Leaves k (resume_thread float transport t d m)
      resumed waiting h e = absurd (omega arith)
      resumed woken h e = omega (arith, accept_request-Leaves d)
      resumed (running p) h e = resume_multiply-Leaves p d k h e

-- What can happen to the device next.
pub data Event : Type 0 where
  access : (behind : ℕ) (trans : Payload) (delay : ℕ) → Event
  compute control : Event

abbrev pub compute_steps : List Event → ℕ
compute_steps [] = 0
compute_steps (access behind trans delay ∷ es) = compute_steps es
compute_steps (compute ∷ es) = suc (compute_steps es)
compute_steps (control ∷ es) = compute_steps es

abbrev pub is_waiting : ComputeThread → Bool
is_waiting waiting = true
is_waiting woken = false
is_waiting (running p) = false

module _ (float : FloatOps) {M : Type 0} (transport : Transport M) where
  -- Whether the thread waits for a request before the events, between two of them, or after them.
  abbrev pub ever_waits : List Event → Device → M → Bool
  ever_waits [] d m = is_waiting d.compute
  ever_waits (access behind trans delay ∷ es) d m =
      is_waiting d.compute || ever_waits es (bar0_b_transport behind d trans delay).state m
  ever_waits (compute ∷ es) d m =
      let r = compute_thread float transport d m in
      is_waiting d.compute || ever_waits es r.device r.memory
  ever_waits (control ∷ es) d m = is_waiting d.compute || ever_waits es (interrupt_controller d) m

pub waits_at_zero : (t : ComputeThread) → remaining t ≡ 0 → is_waiting t ≡ true
waits_at_zero waiting e = refl
waits_at_zero woken e = absurd (omega arith)
waits_at_zero (running (reading_a n matrix_a success)) e = absurd (omega arith)
waits_at_zero (running (reading_b n matrix_a matrix_b success)) e = absurd (omega arith)
waits_at_zero (running (row_done n rows matrix_a matrix_b matrix_c)) e = absurd (omega arith)
waits_at_zero (running (writing_c n success)) e = absurd (omega arith)

-- A thread that is away from its wait, with at most `k` steps to take.
abbrev IsAway : ℕ → ComputeThread → Type 0
IsAway k t = (is_waiting t ≡ false) × (remaining t ≤ k)

notify_start-IsAway : (k : ℕ) (t : ComputeThread) → IsAway k t → IsAway k (notify_start t)
notify_start-IsAway k waiting h = absurd (true≢false h.0)
notify_start-IsAway k woken h = h
notify_start-IsAway k (running p) h = h

pub away-suc : (t : ComputeThread) → is_waiting t ≡ false → remaining t ≡ suc (remaining t - 1)
away-suc t w = elim (Bool-cases (remaining t == 0)) [
  | inl none_left ↦
      let e : remaining t ≡ 0 = ground arith in absurd (true≢false (sym (waits_at_zero t e) ∙ w))
  | inr some_left ↦ ground arith
]

unless_waiting : (b c : Bool) → (b ≡ false → c ≡ true) → (b || c) ≡ true
unless_waiting true c h = refl
unless_waiting false c h = h refl

module _ (float : FloatOps) {M : Type 0} (transport : Transport M) where
  -- From every state that the device can come to, and whatever accesses of BAR0, resets and
  -- starts among them, and steps of the interrupt controller fall between: once the compute
  -- thread has taken as many steps as `remaining` counts from where it stands, it has come to
  -- wait for a request.
  pub ever_waits_in_time :
      (es : List Event) (d : Device) (m : M)
      → Reachable float d
      → remaining d.compute ≤ compute_steps es
      → ever_waits float transport es d m ≡ true
  ever_waits_in_time [] d m r h = waits_at_zero d.compute (omega arith)
  ever_waits_in_time (access behind trans delay ∷ es) d m r h =
      unless_waiting (is_waiting d.compute) _ (λ w.
        ever_waits_in_time es (bar0_b_transport behind d trans delay).state m
          (accessed behind trans delay r)
          (bar0_b_transport-keeps (IsAway (compute_steps es)) (notify_start-IsAway _) behind d trans
            delay (w, h)).1)
  ever_waits_in_time (compute ∷ es) d m r h = unless_waiting (is_waiting d.compute) _ (λ w.
      ever_waits_in_time es (compute_thread float transport d m).device _ (computed transport m r) (
        omega (
          arith,
          away-suc d.compute w,
          compute_thread-Leaves float transport m d (remaining d.compute - 1)
              (Reachable-IsSound float d r).sized (away-suc d.compute w),
        )))
  ever_waits_in_time (control ∷ es) d m r h = unless_waiting (is_waiting d.compute) _ (λ w.
      ever_waits_in_time es (interrupt_controller d) m (controlled r)
        (interrupt_controller-keeps (IsAway (compute_steps es)) (notify_start-IsAway _) d (w, h)).1)
