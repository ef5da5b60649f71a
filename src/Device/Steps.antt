-- ===== src/Device/Steps.antt =====
-- What a step of the compute thread does to the device, whatever it transfers: the cases that a
-- property of the device is proved by.
use pcie_systemc_linux.Prelude.{
  ℕ, ◌≡◌, refl, Bool, true, false, ◌||◌, ◌==◌, ltb, List, if_both, if_cases,
}
use pcie_systemc_linux.Tlm.{Transport}
use pcie_systemc_linux.Device.State.{
  Device, Progress, ComputeThread, waiting, woken, running, reading_a, reading_b, row_done,
  writing_c,
}
use pcie_systemc_linux.Device.Compute.{
  FloatOps, Suspended, finish, compute_thread, accept_request, resume_thread, resume_multiply,
  perform_matrix_multiply, read_matrix_a, read_matrix_b, write_matrix_c, row_step,
}

-- The device when it has taken a request.
abbrev pub busy : Device → Device
busy d = record d { reg_status = 2; computation_requested = false }

module _ (float : FloatOps) {M : Type 0} (transport : Transport M) (m : M) (P : Device → Type 0)
    (d : Device) where
  abbrev After : Suspended M → Type 0
  After x = P x.device

  -- Inside a multiplication: the thread moves on, or ends it.
  module _ (goes_on : (q : Progress) → P (record d { compute = running q }))
      (ends : (success : Bool) → P (finish success d)) where
    row_step-cases :
        (n i : ℕ) (matrix_a matrix_b matrix_c : List ℕ)
        → After (row_step float transport n i matrix_a matrix_b matrix_c d m)
    unfolding row_step write_matrix_c
    row_step-cases n i matrix_a matrix_b matrix_c =
        if_both After (ltb i n) _ _ (goes_on _) (goes_on _)

    resume_multiply-cases : (p : Progress) → After (resume_multiply float transport p d m)
    unfolding resume_multiply read_matrix_b
    resume_multiply-cases (reading_a n matrix_a true) = goes_on _
    resume_multiply-cases (reading_a n matrix_a false) = ends false
    resume_multiply-cases (reading_b n matrix_a matrix_b true) =
        row_step-cases n 0 matrix_a matrix_b _
    resume_multiply-cases (reading_b n matrix_a matrix_b false) = ends false
    resume_multiply-cases (row_done n rows matrix_a matrix_b matrix_c) =
        row_step-cases n rows matrix_a matrix_b matrix_c
    resume_multiply-cases (writing_c n success) = ends success

  -- At its event: no request is set, or it is refused, or the multiplication begins.
  module _ (ignores : d.computation_requested ≡ false → P (record d { compute = waiting }))
      (refuses : d.computation_requested ≡ true → P (finish false (busy d)))
      (begins : d.computation_requested ≡ true
        → (q : Progress) → P (record (busy d) { compute = running q })) where
    accept_request-cases : After (accept_request float transport d m)
    unfolding accept_request perform_matrix_multiply read_matrix_a
    accept_request-cases =
        if_cases After d.computation_requested _ _
          (λ requested.
            if_both After (d.reg_dim_n == 0 || ltb 256 d.reg_dim_n) _ _ (refuses requested)
              (begins requested _))
          ignores

  pub compute_thread-cases :
      (waits : d.compute ≡ waiting → P d)
      (ignores : d.compute ≡ woken
        → d.computation_requested ≡ false
        → P (record d { compute = waiting }))
      (refuses : d.compute ≡ woken → d.computation_requested ≡ true → P (finish false (busy d)))
      (begins : d.compute ≡ woken
        → d.computation_requested ≡ true
        → (q : Progress) → P (record (busy d) { compute = running q }))
      (goes_on : (p : Progress)
        → d.compute ≡ running p
        → (q : Progress) → P (record d { compute = running q }))
      (ends : (p : Progress) → d.compute ≡ running p → (success : Bool) → P (finish success d))
      → After (compute_thread float transport d m)
  unfolding compute_thread resume_thread
  compute_thread-cases waits ignores refuses begins goes_on ends = resumed d.compute refl
    where
      resumed : (t : ComputeThread) → d.compute ≡ t → After (resume_thread float transport t d m)
      resumed waiting e = waits e
      resumed woken e = accept_request-cases (ignores e) (refuses e) (begins e)
      resumed (running p) e = resume_multiply-cases (goes_on p e) (ends p e) p
