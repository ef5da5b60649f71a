-- ===== src/Device/Multiply/Polled.antt =====
-- A multiplication while software polls the registers and the interrupt controller runs.
use pcie_systemc_linux.Prelude.{
  ℕ, ◌≡◌, ◌≢◌, refl, sym, ap, ap₂, ◌∙◌, inl, inr, Bool, true, false, ◌||◌, ◌==◌, ltb, List, [], ◌∷◌,
  Bool-cases,
}
use pcie_systemc_linux.Tlm.{Command, Transport}
use pcie_systemc_linux.Device.State.{
  Device, Progress, ComputeThread, ControllerThread, waiting, woken, running, reading_a, reading_b,
  row_done, writing_c, unstarted, update_interrupt, interrupt_controller,
}
use pcie_systemc_linux.Device.Mmio.{bar0_b_transport}
use pcie_systemc_linux.Device.Access.{controlled_all}
use pcie_systemc_linux.Device.Registers.Frame.{bar0_b_transport-frame}
use pcie_systemc_linux.Device.Compute.{
  FloatOps, Suspended, finish, compute_thread, accept_request, resume_thread, resume_multiply,
  perform_matrix_multiply, read_matrix_a, read_matrix_b, write_matrix_c, row_step,
}
use pcie_systemc_linux.Device.Multiply.Run.{resume}
use pcie_systemc_linux.Device.Multiply.Liveness.{Event, access, compute, control, compute_steps}

-- The device without its interrupt line and the thread that drives it.
abbrev pub core : Device → Device
core d = record d { controller = unstarted; interrupt = false }

abbrev placed : ControllerThread → Bool → Device → Device
placed t line d = record d { controller = t; interrupt = line }

module _ (float : FloatOps) {M : Type 0} (transport : Transport M) where
  -- The events one by one.
  unfoldable pub run_events : List Event → Device → M → Device × M
  run_events [] d m = (d, m)
  run_events (access behind trans delay ∷ es) d m =
      run_events es (bar0_b_transport behind d trans delay).state m
  run_events (compute ∷ es) d m =
      let r = compute_thread float transport d m in run_events es r.device r.memory
  run_events (control ∷ es) d m = run_events es (interrupt_controller d) m

  -- Both halves of a step are the same.
  abbrev Same : Suspended M → Suspended M → Type 0
  Same x y = (x.memory ≡ y.memory) × (core x.device ≡ core y.device)

  module _ (t : ControllerThread) (line : Bool) (m : M) where
    finish-core :
        (success : Bool) (d : Device)
        → core (finish success (placed t line d)) ≡ core (finish success d)
    unfolding finish update_interrupt
    finish-core true d = refl
    finish-core false d = refl

    row_step-Same :
        (n i : ℕ) (matrix_a matrix_b matrix_c : List ℕ) (d : Device)
        → Same
            (row_step float transport n i matrix_a matrix_b matrix_c (placed t line d) m)
            (row_step float transport n i matrix_a matrix_b matrix_c d m)
    unfolding row_step write_matrix_c
    row_step-Same n i matrix_a matrix_b matrix_c d = elim (Bool-cases (ltb i n)) [
      | inl more ↦ rw more (refl, refl)
      | inr last ↦ rw last (refl, refl)
    ]

    resume_multiply-Same :
        (p : Progress) (d : Device)
        → Same
            (resume_multiply float transport p (placed t line d) m)
            (resume_multiply float transport p d m)
    unfolding resume_multiply read_matrix_b
    resume_multiply-Same (reading_a n matrix_a true) d = (refl, refl)
    resume_multiply-Same (reading_a n matrix_a false) d = (refl, finish-core false d)
    resume_multiply-Same (reading_b n matrix_a matrix_b true) d =
        row_step-Same n 0 matrix_a matrix_b _ d
    resume_multiply-Same (reading_b n matrix_a matrix_b false) d = (refl, finish-core false d)
    resume_multiply-Same (row_done n rows matrix_a matrix_b matrix_c) d =
        row_step-Same n rows matrix_a matrix_b matrix_c d
    resume_multiply-Same (writing_c n success) d = (refl, finish-core success d)

    accept_request-Same :
        (d : Device)
        → Same
            (accept_request float transport (placed t line d) m)
            (accept_request float transport d m)
    unfolding accept_request perform_matrix_multiply read_matrix_a
    accept_request-Same d = elim (Bool-cases d.computation_requested) [
      | inl request ↦ rw request (elim (Bool-cases (d.reg_dim_n == 0 || ltb 256 d.reg_dim_n)) [
        | inl bad ↦
            rw bad
              (refl, finish-core false (record d { reg_status = 2; computation_requested = false }))
        | inr good ↦ rw good (refl, refl)
      ])
      | inr no_request ↦ rw no_request (refl, refl)
    ]

    -- The thread does not see the line or its controller.
    compute_thread-Same :
        (d : Device)
        → Same
            (compute_thread float transport (placed t line d) m)
            (compute_thread float transport d m)
    unfolding compute_thread resume_thread
    compute_thread-Same d = resumed d.compute
      where
        resumed :
            (p : ComputeThread)
            → Same
                (resume_thread float transport p (placed t line d) m)
                (resume_thread float transport p d m)
        resumed waiting = (refl, refl)
        resumed woken = accept_request-Same d
        resumed (running p) = resume_multiply-Same p d

-- No access writes.
abbrev pub IsPolling : List Event → Type 0
IsPolling [] = Unit {0}
IsPolling (access behind trans delay ∷ es) = (trans.command ≢ Command.write) × IsPolling es
IsPolling (compute ∷ es) = IsPolling es
IsPolling (control ∷ es) = IsPolling es

module _ (float : FloatOps) {M : Type 0} (transport : Transport M) where
  -- Devices with the same core, and equal memories, step alike.
  steps_alike :
      (d d' : Device) (m m' : M)
      → core d ≡ core d'
      → m ≡ m'
      → Same float transport
          (compute_thread float transport d m)
          (compute_thread float transport d' m')
  steps_alike d d' m m' e f =
      let here = compute_thread-Same float transport unstarted false m d in
      let there = compute_thread-Same float transport unstarted false m' d' in
      (
        sym here.0 ∙ ap₂ (λ x y. (compute_thread float transport x y).memory) e f ∙ there.0,
        sym here.1 ∙ ap₂ (λ x y. core (compute_thread float transport x y).device) e f ∙ there.1,
      )

  runs_alike :
      (es : List Event) (d d' : Device) (m m' : M)
      → IsPolling es
      → core d ≡ core d'
      → m ≡ m'
      → ((run_events float transport es d m).1
          ≡ (resume float transport (compute_steps es) d' m').1)
        × (core (run_events float transport es d m).0
            ≡ core (resume float transport (compute_steps es) d' m').0)
  unfolding run_events resume
  runs_alike [] d d' m m' h e f = (f, e)
  runs_alike (access behind trans delay ∷ es) d d' m m' h e f =
      runs_alike es (bar0_b_transport behind d trans delay).state d' m m' h.1
        (ap core (bar0_b_transport-frame behind d trans delay (inr (inl h.0))) ∙ e) f
  runs_alike (compute ∷ es) d d' m m' h e f =
      let (memory, device) = steps_alike d d' m m' e f in runs_alike es _ _ _ _ h device memory
  runs_alike (control ∷ es) d d' m m' h e f =
      runs_alike es (interrupt_controller d) d' m m' h
        (controlled_all (λ x. core x ≡ core d) d (λ t line. refl) ∙ e) f

  -- Polling does not disturb a multiplication: with any reads of BAR0 and steps of the interrupt controller
  -- between the steps of the compute thread, the memory, and all of the device but its interrupt line and
  -- the thread that drives it, are after the same number of steps what they are without.
  pub run_events-resume :
      (es : List Event) (d : Device) (m : M)
      → IsPolling es
      → ((run_events float transport es d m).1 ≡ (resume float transport (compute_steps es) d m).1)
        × (core (run_events float transport es d m).0
            ≡ core (resume float transport (compute_steps es) d m).0)
  run_events-resume es d m h = runs_alike es d d m m h refl refl
