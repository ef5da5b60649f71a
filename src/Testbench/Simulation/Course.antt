-- ===== src/Testbench/Simulation/Course.antt =====
-- Where the device and the memory are while `test_sequence` runs.
use pcie_systemc_linux.Prelude.{
  ℕ, zero, suc, ◌+◌, ◌-◌, ◌≤◌, ◌<◌, ◌≡◌, refl, ap, ◌∙◌, Bool, true, false, List, arith,
}
use pcie_systemc_linux.Prelude.Bytes.{words_to_bytes}
use pcie_systemc_linux.Device.State.{
  Device, ControllerThread, drive_interrupt, unstarted, starting, start_of_simulation,
}
use pcie_systemc_linux.Device.Line.Interrupt.{level}
use pcie_systemc_linux.Device.Compute.{FloatOps, compute_thread, finish, dma_read, dma_write}
use pcie_systemc_linux.Device.Multiply.Run.{resume, requested, accepted, resume_finished}
use pcie_systemc_linux.Device.Multiply.Product.{matrix_product}
use pcie_systemc_linux.Testbench.Memory.{HostMemory, host_memory, store, b_transport}
use pcie_systemc_linux.Testbench.Multiply.{multiplication_completes, matrix_at}
use pcie_systemc_linux.Testbench.Simulation.Line.{lined}

-- What the controller's step does to a device by its line.
abbrev pub next_place : ControllerThread → ControllerThread
next_place unstarted = unstarted
next_place starting = ControllerThread.waiting
next_place ControllerThread.waiting = ControllerThread.waiting
next_place ControllerThread.woken = ControllerThread.waiting

abbrev pub next_line : ControllerThread → Bool → Bool → Bool
next_line unstarted i l = i
next_line starting i l = i
next_line ControllerThread.waiting i l = i
next_line ControllerThread.woken i l = l

pub drive-lined :
    (c : ControllerThread) (i : Bool) (d : Device)
    → drive_interrupt c (lined c i d) ≡ lined (next_place c) (next_line c i (level d)) d
drive-lined unstarted i d = refl
drive-lined starting i d = refl
drive-lined ControllerThread.waiting i d = refl
drive-lined ControllerThread.woken i d = refl

-- The device as `test_sequence` has set it up.
abbrev pub set_up : Device
set_up = record start_of_simulation {
  reg_control = 1;
  reg_dim_n = 4;
  reg_matrix_a_ptr = 0x1000;
  reg_matrix_b_ptr = 0x2000;
  reg_matrix_c_ptr = 0x3000;
  reg_int_enable = 1;
}

-- The device at the end of the multiplication.
abbrev pub done : Device
done = finish true (accepted set_up)

module _ (float : FloatOps) (matrix_a matrix_b : List ℕ) where
  abbrev pub stored : HostMemory
  stored =
      store (store host_memory 0x1000 (words_to_bytes matrix_a)) 0x2000 (words_to_bytes matrix_b)

  abbrev pub final : HostMemory
  final = store stored 0x3000 (
      words_to_bytes
        (matrix_product float 4 (matrix_at stored 0x1000 4) (matrix_at stored 0x2000 4)))

  -- The device and the memory after `j` steps of the compute thread.
  abbrev pub course : ℕ → Device × HostMemory
  course j = resume float b_transport j (requested set_up) stored

  resume_snoc :
      (j : ℕ) (d : Device) (m : HostMemory)
      → let r = resume float b_transport j d m in
        let t = compute_thread float b_transport r.0 r.1 in
        resume float b_transport (suc j) d m ≡ (t.device, t.memory)
  unfolding resume
  resume_snoc zero d m = refl
  resume_snoc (suc j) d m =
      let t = compute_thread float b_transport d m in resume_snoc j t.device t.memory

  pub course-suc :
      (j : ℕ)
      → let t = compute_thread float b_transport (course j).0 (course j).1 in
        course (suc j) ≡ (t.device, t.memory)
  course-suc j = resume_snoc j (requested set_up) stored

  resume_past :
      (k j : ℕ) (d : Device) (m : HostMemory)
      → resume float b_transport (j + k) d m
        ≡ (let r = resume float b_transport k d m in resume float b_transport j r.0 r.1)
  unfolding resume
  resume_past zero j d m =
      let e : j + 0 ≡ j = omega arith in ap (λ t. resume float b_transport t d m) e
  resume_past (suc k) j d m =
      let t = compute_thread float b_transport d m in
      let e : j + suc k ≡ suc (j + k) = omega arith in
      ap (λ n. resume float b_transport n d m) e ∙ resume_past k j t.device t.memory

  pub course_end : (j : ℕ) → 8 ≤ j → course j ≡ (done, final)
  course_end j h =
      let e : j ≡ j - 8 + 8 = omega arith in
      ap (λ t. course t) e
      ∙ resume_past 8 (j - 8) (requested set_up) stored
      ∙ ap (λ r. resume float b_transport (j - 8) r.0 r.1)
          (multiplication_completes float set_up stored (omega arith) (omega arith) (omega arith)
            (omega arith) (omega arith) (omega arith))
      ∙ resume_finished float b_transport (j - 8) true (accepted set_up) final

  -- No interrupt is due before.
  pub course-level : (j : ℕ) → j < 8 → level (course j).0 ≡ false
  unfolding resume compute_thread b_transport dma_read dma_write
  course-level zero h = refl
  course-level (suc zero) h = refl
  course-level (suc (suc zero)) h = refl
  course-level (suc (suc (suc zero))) h = refl
  course-level (suc (suc (suc (suc zero)))) h = refl
  course-level (suc (suc (suc (suc (suc zero))))) h = refl
  course-level (suc (suc (suc (suc (suc (suc zero)))))) h = refl
  course-level (suc (suc (suc (suc (suc (suc (suc zero))))))) h = refl
  course-level (suc (suc (suc (suc (suc (suc (suc (suc j)))))))) h = absurd (omega arith)
