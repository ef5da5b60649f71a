-- ===== src/Testbench/Simulation/Line.antt =====
-- The compute thread works alike whatever the interrupt controller and the line are.
use pcie_systemc_linux.Prelude.{
  if◌then◌else◌, ◌==◌, ◌||◌, ℕ, ◌≡◌, refl, ltb, Bool, true, false, List, Bool-cases, inl, inr,
}
use pcie_systemc_linux.Tlm.{Transport}
use pcie_systemc_linux.Device.State.{
  Device, Progress, ComputeThread, running, ControllerThread, reading_a, reading_b, row_done,
  writing_c, update_interrupt, notify_update,
}
use pcie_systemc_linux.Device.Compute.{
  accept_request, resume_thread, perform_matrix_multiply, read_matrix_a, compute_thread, FloatOps,
  Suspended, finish, resume_multiply, read_matrix_b, write_matrix_c, row_step,
}

-- The device with its controller and its line set.
abbrev pub lined : ControllerThread → Bool → Device → Device
lined c i d = record d { controller = c; interrupt = i }

-- Two suspensions that differ in the line only, the first with the line `i`.
pub data Alike {M : Type 0} (i : Bool) (x y : Suspended M) : Type 0 where
  alike : (c : ControllerThread) → x.device ≡ lined c i y.device → x.memory ≡ y.memory → Alike i x y

if-Alike :
    {M : Type 0} (i b : Bool) (x y x' y' : Suspended M)
    → Alike i x x'
    → Alike i y y'
    → Alike i (if b then x else y) (if b then x' else y')
if-Alike i true x y x' y' p q = p
if-Alike i false x y x' y' p q = q

module _ (float : FloatOps) {M : Type 0} (transport : Transport M) (c : ControllerThread) (i : Bool)
    (d : Device) (m : M) where
  abbrev there : Device
  there = lined c i d

  row_step-Alike :
      (n k : ℕ) (matrix_a matrix_b matrix_c : List ℕ)
      → Alike i
          (row_step float transport n k matrix_a matrix_b matrix_c there m)
          (row_step float transport n k matrix_a matrix_b matrix_c d m)
  unfolding row_step write_matrix_c
  row_step-Alike n k matrix_a matrix_b matrix_c = elim (Bool-cases (ltb k n)) [
    | inl more ↦ rw more (alike c refl refl)
    | inr last ↦ rw last (alike c refl refl)
  ]

  resume_multiply-Alike :
      (p : Progress)
      → Alike i (resume_multiply float transport p there m) (resume_multiply float transport p d m)
  unfolding resume_multiply read_matrix_b finish update_interrupt
  resume_multiply-Alike (reading_a n matrix_a true) = alike c refl refl
  resume_multiply-Alike (reading_a n matrix_a false) = alike (notify_update c) refl refl
  resume_multiply-Alike (reading_b n matrix_a matrix_b true) =
      row_step-Alike n 0 matrix_a matrix_b _
  resume_multiply-Alike (reading_b n matrix_a matrix_b false) = alike (notify_update c) refl refl
  resume_multiply-Alike (row_done n rows matrix_a matrix_b matrix_c) =
      row_step-Alike n rows matrix_a matrix_b matrix_c
  resume_multiply-Alike (writing_c n true) = alike (notify_update c) refl refl
  resume_multiply-Alike (writing_c n false) = alike (notify_update c) refl refl

  accept_request-Alike :
      Alike i (accept_request float transport there m) (accept_request float transport d m)
  unfolding accept_request perform_matrix_multiply read_matrix_a finish update_interrupt
  accept_request-Alike =
      if-Alike i d.computation_requested _ _ _ _
        (if-Alike i (d.reg_dim_n == 0 || ltb 256 d.reg_dim_n) _ _ _ _
          (alike (notify_update c) refl refl) (alike c refl refl))
        (alike c refl refl)

  resume_thread-Alike :
      (t : ComputeThread)
      → Alike i (resume_thread float transport t there m) (resume_thread float transport t d m)
  unfolding resume_thread
  resume_thread-Alike ComputeThread.waiting = alike c refl refl
  resume_thread-Alike ComputeThread.woken = accept_request-Alike
  resume_thread-Alike (running p) = resume_multiply-Alike p

  pub compute_thread-Alike :
      Alike i (compute_thread float transport (lined c i d) m) (compute_thread float transport d m)
  unfolding compute_thread
  compute_thread-Alike = resume_thread-Alike d.compute
