-- ===== src/Testbench/Simulation/Fair.antt =====
-- Every simulation in rounds comes to its end.
use pcie_systemc_linux.Prelude.{
  ℕ, ◌≤◌, ◌≡◌, refl, ap, ◌∙◌, ◌==◌, if_cases, false, true, List, [], ◌∷◌, ◌++◌, length, arith,
}
use pcie_systemc_linux.Device.Compute.{FloatOps}
use pcie_systemc_linux.Device.State.{unstarted}
use pcie_systemc_linux.Testbench.Simulation.Sequence.{Bench, started, bench, stopping}
use pcie_systemc_linux.Testbench.Simulation.Phases.{
  at_status, at_n, at_a, at_b, at_c, at_enable, at_start,
}
use pcie_systemc_linux.Testbench.Simulation.Schedule.{
  run-Simulated, Thread, turn, run, test, compute, control,
}
use pcie_systemc_linux.Testbench.Simulation.Result.{memory_lem, Simulated-product}
use pcie_systemc_linux.Testbench.Simulation.Report.{print_result, report}
use pcie_systemc_linux.Device.Multiply.Product.{matrix_product}
use pcie_systemc_linux.Prelude.Bytes.{AllWords}
use pcie_systemc_linux.Testbench.Simulation.Stages.{
  Stage, early, counting, ended, received, known, stopped, step, InRange,
}
use pcie_systemc_linux.Testbench.Simulation.Following.{at, turn-step}
use pcie_systemc_linux.Testbench.Simulation.Rounds.{
  Order, round, rounds, steps, Regular, unread, multiplying, finished, left, progress,
}

step-InRange : (t : Thread) (x : Stage) → InRange x → InRange (step t x)
step-InRange test (early at_status c status) h = tt
step-InRange test (early at_n c status) h = tt
step-InRange test (early at_a c status) h = tt
step-InRange test (early at_b c status) h = tt
step-InRange test (early at_c c status) h = tt
step-InRange test (early at_enable c status) h = tt
step-InRange test (early at_start c status) h = omega arith
step-InRange test (counting j c status) h = h
step-InRange test (ended c false status) h = tt
step-InRange test (ended c true status) h = tt
step-InRange test (received c i) h = tt
step-InRange test (known c i) h = tt
step-InRange test (stopped c i) h = tt
step-InRange compute (counting j c status) h =
    if_cases InRange (j == 7) _ _ (λ last. tt) (λ more. ground arith)
step-InRange compute (early p c status) h = tt
step-InRange compute (ended c i status) h = tt
step-InRange compute (received c i) h = tt
step-InRange compute (known c i) h = tt
step-InRange compute (stopped c i) h = tt
step-InRange control (counting j c status) h = h
step-InRange control (early p c status) h = tt
step-InRange control (ended c i status) h = tt
step-InRange control (received c i) h = tt
step-InRange control (known c i) h = tt
step-InRange control (stopped c i) h = tt

Regular-InRange : (x : Stage) → Regular x → InRange x
Regular-InRange _ (multiplying h) = h
Regular-InRange _ unread = tt
Regular-InRange _ _ = tt

module _ (float : FloatOps) (matrix_a matrix_b : List ℕ) where
  run-append :
      (ts us : List Thread) (s : Bench) → run float (ts ++ us) s ≡ run float us (run float ts s)
  run-append [] us s = refl
  run-append (t ∷ ts) us s = run-append ts us (turn float t s)

  run-steps :
      (ts : List Thread) (x : Stage)
      → InRange x
      → run float ts (at float matrix_a matrix_b x) ≡ at float matrix_a matrix_b (steps ts x)
  run-steps [] x h = refl
  run-steps (t ∷ ts) x h =
      ap (run float ts) (turn-step float matrix_a matrix_b t x h)
      ∙ run-steps ts (step t x) (step-InRange t x h)

  none_left : (x : Stage) → Regular x → left x ≤ 0 → (at float matrix_a matrix_b x).place ≡ stopping
  none_left _ finished h = refl
  none_left _ (multiplying l) h = absurd (omega arith)
  none_left _ unread h = absurd (omega arith)
  none_left _ _ h = absurd (omega arith)

  rounds-stopping :
      (os : List Order) (x : Stage)
      → Regular x
      → left x ≤ length os
      → (run float (rounds os) (at float matrix_a matrix_b x)).place ≡ stopping
  rounds-stopping [] x r h = none_left x r h
  rounds-stopping (o ∷ os) x r h =
      let (regular, near) = progress o x r in
      ap (λ (s : Bench). s.place)
        (run-append (round o) (rounds os) (at float matrix_a matrix_b x)
          ∙ ap (run float (rounds os)) (run-steps (round o) x (Regular-InRange x r)))
      ∙ rounds-stopping os (steps (round o) x) regular (omega arith)

  run-rounds :
      (os : List Order)
      → length matrix_a ≡ 16
      → length matrix_b ≡ 16
      → 19 ≤ length os
      → (run float (rounds os) (bench matrix_a matrix_b)).place ≡ stopping
  run-rounds os count_a count_b h =
      ap (λ m. (run float (rounds os) (record (bench matrix_a matrix_b) { memory = m })).place)
        (memory_lem float matrix_a matrix_b count_a count_b)
      ∙ rounds-stopping os (early at_status unstarted 0) unread h

  -- For every two 4x4 matrices of 32-bit words and every arithmetic, the test bench comes to its
  -- end, and `sc_main` then prints their product in four rows of four, whatever its buffer held,
  -- after any number of rounds from nineteen on, in each of which each of the three threads takes
  -- one step, in whatever order.
  pub rounds-report :
      (os : List Order) (buffer : List ℕ)
      → length matrix_a ≡ 16
      → length matrix_b ≡ 16
      → AllWords matrix_a
      → AllWords matrix_b
      → length buffer ≡ 64
      → 19 ≤ length os
      → ((run float (rounds os) (bench matrix_a matrix_b)).place ≡ stopping)
        × (print_result (run float (rounds os) (bench matrix_a matrix_b)).memory buffer
            ≡ report (matrix_product float 4 matrix_a matrix_b))
  rounds-report os buffer count_a count_b words_a words_b l h =
      let stops = run-rounds os count_a count_b h in
      let (_, printed, _, _) =
        Simulated-product float matrix_a matrix_b count_a count_b words_a words_b
          (run float (rounds os) (bench matrix_a matrix_b)) buffer
          (run-Simulated float matrix_a matrix_b (rounds os) (bench matrix_a matrix_b) started)
          stops l in
      (stops, printed)
