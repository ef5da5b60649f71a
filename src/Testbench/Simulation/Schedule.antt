-- ===== src/Testbench/Simulation/Schedule.antt =====
-- A simulation in the order in which its times put the steps.
use pcie_systemc_linux.Prelude.{ℕ, ◌≡◌, ap, List, [], ◌∷◌, ◌++◌, length, replicate}
use pcie_systemc_linux.Device.State.{interrupt_controller}
use pcie_systemc_linux.Device.Mmio.{write_register}
use pcie_systemc_linux.Device.Compute.{FloatOps, compute_thread, dma_read, dma_write}
use pcie_systemc_linux.Testbench.Memory.{b_transport}
use pcie_systemc_linux.Testbench.Simulation.Sequence.{
  Bench, bench, Simulated, test_sequence, compute_step, tested, computed, controlled, stopping,
}
use pcie_systemc_linux.Testbench.Simulation.Result.{memory_lem}

pub data Thread : Type 0 where
  test compute control : Thread

-- One step of a thread; uninitialised storage holds zeros.
abbrev pub turn : FloatOps → Thread → Bench → Bench
turn float test s = test_sequence 0 0 s.place s
turn float compute s = compute_step float s
turn float control s = record s { device = interrupt_controller s.device }

abbrev pub run : FloatOps → List Thread → Bench → Bench
run float [] s = s
run float (t ∷ ts) s = run float ts (turn float t s)

pub run-Simulated :
    (float : FloatOps) (matrix_a matrix_b : List ℕ) (ts : List Thread) (s : Bench)
    → Simulated float matrix_a matrix_b s
    → Simulated float matrix_a matrix_b (run float ts s)
run-Simulated float matrix_a matrix_b [] s r = r
run-Simulated float matrix_a matrix_b (test ∷ ts) s r =
    run-Simulated float matrix_a matrix_b ts _ (tested 0 0 r)
run-Simulated float matrix_a matrix_b (compute ∷ ts) s r =
    run-Simulated float matrix_a matrix_b ts _ (computed r)
run-Simulated float matrix_a matrix_b (control ∷ ts) s r =
    run-Simulated float matrix_a matrix_b ts _ (controlled r)

-- The accesses up to INT_ENABLE, the controller's first event, the start, the multiplication, the
-- interrupt, and the accesses after it.
abbrev pub timely : List Thread
timely =
    replicate 6 test ++ control ∷ test ∷ replicate 8 compute ++ control ∷ test ∷ test ∷ test ∷ []

-- In the order in which their times put the threads' steps, less the polls that find the line low,
-- the test bench comes to its end, for every two 4x4 matrices and every arithmetic.
pub run-timely :
    (float : FloatOps) (matrix_a matrix_b : List ℕ)
    → length matrix_a ≡ 16
    → length matrix_b ≡ 16
    → (run float timely (bench matrix_a matrix_b)).place ≡ stopping
unfolding test_sequence write_register interrupt_controller compute_thread b_transport dma_read
    dma_write
run-timely float matrix_a matrix_b count_a count_b =
    ap (λ m. (run float timely (record (bench matrix_a matrix_b) { memory = m })).place)
      (memory_lem float matrix_a matrix_b count_a count_b)
