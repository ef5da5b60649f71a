-- ===== src/Testbench/Simulation/Conclusion.antt =====
-- Every simulation of the test bench, in any order of the steps of its threads.
use mathlib.Core.Path.{subst}
use mathlib.Core.Bool.{false≢true}
use pcie_systemc_linux.Prelude.{
  ℕ, suc, ◌≤◌, ◌≡◌, refl, sym, ap, ap₂, ◌∙◌, inl, inr, ltb, Bool-cases, Bool, true, false, List,
  arith,
}
use pcie_systemc_linux.Device.State.{
  Device, ControllerThread, interrupt_controller, update_interrupt, unstarted, starting,
}
use pcie_systemc_linux.Device.Line.Interrupt.{level}
use pcie_systemc_linux.Device.Compute.{FloatOps, compute_thread, resume_thread, finish}
use pcie_systemc_linux.Testbench.Memory.{HostMemory, b_transport}
use pcie_systemc_linux.Testbench.Simulation.Sequence.{Bench, compute_step, polling}
use pcie_systemc_linux.Testbench.Simulation.Line.{lined, alike, compute_thread-Alike}
use pcie_systemc_linux.Testbench.Simulation.Course.{
  done, stored, course, course-suc, course-level, next_place, next_line, drive-lined,
}
use pcie_systemc_linux.Testbench.Simulation.Phases.{
  Early, at_status, at_n, at_a, at_b, at_c, at_enable, at_start, place_of, prepared, cleared, Phase,
  before, polls, received, known, stopped,
}

module _ (float : FloatOps) (matrix_a matrix_b : List ℕ) where
  -- The compute thread's step.
  before-computed :
      (p : Early) (c : ControllerThread) (status : ℕ)
      → Phase float matrix_a matrix_b (
          compute_step float (record {
            device = lined c false (prepared p);
            memory = stored float matrix_a matrix_b;
            place = place_of p;
            status = status;
            int_status = 0;
          }))
  unfolding compute_thread resume_thread
  before-computed at_status c status = before at_status c status
  before-computed at_n c status = before at_n c status
  before-computed at_a c status = before at_a c status
  before-computed at_b c status = before at_b c status
  before-computed at_c c status = before at_c c status
  before-computed at_enable c status = before at_enable c status
  before-computed at_start c status = before at_start c status

  abbrev polling_at : ℕ → Device × HostMemory → Bench
  polling_at status x = record {
    device = x.0;
    memory = x.1;
    place = polling;
    status = status;
    int_status = 0;
  }

  polls-computed :
      (j : ℕ) (c : ControllerThread) (i : Bool) (status : ℕ)
      → (i ≡ true → 8 ≤ j)
      → let x = course float matrix_a matrix_b j in
        Phase float matrix_a matrix_b (compute_step float (polling_at status (lined c i x.0, x.1)))
  polls-computed j c i status h =
      let x = course float matrix_a matrix_b j in
      elim (compute_thread-Alike float b_transport c i x.0 x.1) [
        | alike c' e f ↦
            let r = sym (course-suc float matrix_a matrix_b j) in
            subst (λ y. Phase float matrix_a matrix_b (polling_at status y))
              (sym (ap₂ (λ a b. (a, b)) (e ∙ ap (λ t. lined c' i t.0) r) (f ∙ ap (λ t. t.1) r)))
              (polls (suc j) c' i status (λ k. omega (arith, h k)))
      ]

  pub computed-Phase :
      (s : Bench)
      → Phase float matrix_a matrix_b s
      → Phase float matrix_a matrix_b (compute_step float s)
  unfolding compute_thread resume_thread finish update_interrupt
  computed-Phase _ (before p c status) = before-computed p c status
  computed-Phase _ (polls j c i status h) = polls-computed j c i status h
  computed-Phase _ (received c i) = received c i
  computed-Phase _ (known c i) = known c i
  computed-Phase _ (stopped c i) = stopped c i

  -- The interrupt controller's step.
  pub quiet : (c : ControllerThread) (l : Bool) → l ≡ false → next_line c false l ≡ false
  quiet unstarted l e = refl
  quiet starting l e = refl
  quiet ControllerThread.waiting l e = refl
  quiet ControllerThread.woken l e = e

  pub level-prepared : (p : Early) → level (prepared p) ≡ false
  level-prepared at_status = refl
  level-prepared at_n = refl
  level-prepared at_a = refl
  level-prepared at_b = refl
  level-prepared at_c = refl
  level-prepared at_enable = refl
  level-prepared at_start = refl

  due : (j : ℕ) → level (course float matrix_a matrix_b j).0 ≡ true → 8 ≤ j
  due j e = elim (Bool-cases (ltb j 8)) [
    | inl early ↦
        absurd (false≢true (sym (course-level float matrix_a matrix_b j (ground arith)) ∙ e))
    | inr late ↦ ground arith
  ]

  line_due :
      (j : ℕ) (c : ControllerThread) (i : Bool)
      → (i ≡ true → 8 ≤ j)
      → next_line c i (level (course float matrix_a matrix_b j).0) ≡ true
      → 8 ≤ j
  line_due j unstarted i h e = h e
  line_due j starting i h e = h e
  line_due j ControllerThread.waiting i h e = h e
  line_due j ControllerThread.woken i h e = due j e

  -- The bench with another device.
  abbrev Moved : Bench → Device → Type 0
  Moved s d = Phase float matrix_a matrix_b (record s { device = d })

  pub controlled-Phase :
      (s : Bench)
      → Phase float matrix_a matrix_b s
      → Phase float matrix_a matrix_b (record s { device = interrupt_controller s.device })
  unfolding interrupt_controller
  controlled-Phase s (before p c status) =
      subst (Moved s)
        (sym (
          drive-lined c false (prepared p)
          ∙ ap (λ i. lined (next_place c) i (prepared p)) (quiet c _ (level-prepared p))))
        (before p (next_place c) status)
  controlled-Phase s (polls j c i status h) =
      subst (Moved s) (sym (drive-lined c i (course float matrix_a matrix_b j).0))
        (polls j (next_place c) _ status (line_due j c i h))
  controlled-Phase s (received c i) =
      subst (Moved s) (sym (drive-lined c i done)) (received (next_place c) _)
  controlled-Phase s (known c i) =
      subst (Moved s) (sym (drive-lined c i done)) (known (next_place c) _)
  controlled-Phase s (stopped c i) =
      subst (Moved s) (sym (drive-lined c i cleared)) (stopped (next_place c) _)
