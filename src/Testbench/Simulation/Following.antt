-- ===== src/Testbench/Simulation/Following.antt =====
-- The threads' steps follow the machine of the stages exactly.
use pcie_systemc_linux.Prelude.{ap, ◌∙◌, ℕ, zero, suc, ◌≡◌, refl, Bool, true, false, List, arith}
use pcie_systemc_linux.Device.State.{
  Device, interrupt_controller, ControllerThread, update_interrupt,
}
use pcie_systemc_linux.Device.Mmio.{write_register}
use pcie_systemc_linux.Device.Compute.{FloatOps, compute_thread, dma_read, dma_write}
use pcie_systemc_linux.Device.Multiply.Run.{resume}
use pcie_systemc_linux.Testbench.Memory.{b_transport}
use pcie_systemc_linux.Testbench.Simulation.Sequence.{
  Bench, test_sequence, polling, reading_int_status, clearing_int_status, stopping,
}
use pcie_systemc_linux.Testbench.Simulation.Line.{lined}
use pcie_systemc_linux.Testbench.Simulation.Course.{
  stored, course, course-level, drive-lined, next_place, next_line,
}
use pcie_systemc_linux.Testbench.Simulation.Phases.{
  at_status, at_n, at_a, at_b, at_c, at_enable, at_start, place_of, prepared,
}
use pcie_systemc_linux.Testbench.Simulation.Schedule.{Thread, turn, test, compute, control}
use pcie_systemc_linux.Testbench.Simulation.Conclusion.{quiet, level-prepared}
use pcie_systemc_linux.Device.Line.Interrupt.{level}
use pcie_systemc_linux.Testbench.Simulation.Stages.{
  Stage, early, counting, ended, received, known, stopped, step, InRange,
}

module _ (float : FloatOps) (matrix_a matrix_b : List ℕ) where
  -- The simulation at a stage.
  abbrev pub at : Stage → Bench
  at (early p c status) = record {
    device = lined c false (prepared p);
    memory = stored float matrix_a matrix_b;
    place = place_of p;
    status = status;
    int_status = 0;
  }
  at (counting j c status) = record {
    device = lined c false (course float matrix_a matrix_b j).0;
    memory = (course float matrix_a matrix_b j).1;
    place = polling;
    status = status;
    int_status = 0;
  }
  at (ended c i status) = record {
    device = lined c i (course float matrix_a matrix_b 8).0;
    memory = (course float matrix_a matrix_b 8).1;
    place = polling;
    status = status;
    int_status = 0;
  }
  at (received c i) = record {
    device = lined c i (course float matrix_a matrix_b 8).0;
    memory = (course float matrix_a matrix_b 8).1;
    place = reading_int_status;
    status = 5;
    int_status = 0;
  }
  at (known c i) = record {
    device = lined c i (course float matrix_a matrix_b 8).0;
    memory = (course float matrix_a matrix_b 8).1;
    place = clearing_int_status;
    status = 5;
    int_status = 1;
  }
  at (stopped c i) = record {
    device = record (lined c i (course float matrix_a matrix_b 8).0) { reg_int_status = 0 };
    memory = (course float matrix_a matrix_b 8).1;
    place = stopping;
    status = 5;
    int_status = 1;
  }

  test-step : (x : Stage) → turn float test (at x) ≡ at (step test x)
  unfolding test_sequence write_register update_interrupt resume compute_thread b_transport dma_read
      dma_write
  test-step (early at_status c status) = refl
  test-step (early at_n c status) = refl
  test-step (early at_a c status) = refl
  test-step (early at_b c status) = refl
  test-step (early at_c c status) = refl
  test-step (early at_enable c status) = refl
  test-step (early at_start c status) = refl
  test-step (counting j c status) = refl
  test-step (ended c false status) = refl
  test-step (ended c true status) = refl
  test-step (received c i) = refl
  test-step (known c i) = refl
  test-step (stopped c i) = refl

  compute-step : (x : Stage) → InRange x → turn float compute (at x) ≡ at (step compute x)
  unfolding resume compute_thread b_transport dma_read dma_write
  compute-step (early at_status c status) h = refl
  compute-step (early at_n c status) h = refl
  compute-step (early at_a c status) h = refl
  compute-step (early at_b c status) h = refl
  compute-step (early at_c c status) h = refl
  compute-step (early at_enable c status) h = refl
  compute-step (early at_start c status) h = refl
  compute-step (counting zero c status) h = refl
  compute-step (counting (suc zero) c status) h = refl
  compute-step (counting (suc (suc zero)) c status) h = refl
  compute-step (counting (suc (suc (suc zero))) c status) h = refl
  compute-step (counting (suc (suc (suc (suc zero)))) c status) h = refl
  compute-step (counting (suc (suc (suc (suc (suc zero))))) c status) h = refl
  compute-step (counting (suc (suc (suc (suc (suc (suc zero)))))) c status) h = refl
  compute-step (counting (suc (suc (suc (suc (suc (suc (suc zero))))))) c status) h = refl
  compute-step (counting (suc (suc (suc (suc (suc (suc (suc (suc j)))))))) c status) h =
      absurd (omega arith)
  compute-step (ended c i status) h = refl
  compute-step (received c i) h = refl
  compute-step (known c i) h = refl
  compute-step (stopped c i) h = refl

  -- The controller's step, on the device at a level.
  controlled :
      (c : ControllerThread) (i : Bool) (d : Device) (l : Bool)
      → level d ≡ l
      → interrupt_controller (lined c i d) ≡ lined (next_place c) (next_line c i l) d
  unfolding interrupt_controller
  controlled c i d l e = drive-lined c i d ∙ ap (λ l. lined (next_place c) (next_line c i l) d) e

  -- Without a level to drive.
  controlled_quiet :
      (c : ControllerThread) (d : Device)
      → level d ≡ false
      → interrupt_controller (lined c false d) ≡ lined (next_place c) false d
  controlled_quiet c d e =
      controlled c false d false e
      ∙ ap (λ i. lined (next_place c) i d) (quiet float matrix_a matrix_b c false refl)

  -- The bench with another device.
  abbrev with : Bench → Device → Bench
  with s d = record s { device = d }

  level-end : level (course float matrix_a matrix_b 8).0 ≡ true
  unfolding resume compute_thread b_transport dma_read dma_write
  level-end = refl

  level-cleared : level (record (course float matrix_a matrix_b 8).0 { reg_int_status = 0 }) ≡ false
  unfolding resume compute_thread b_transport dma_read dma_write
  level-cleared = refl

  control-step : (x : Stage) → InRange x → turn float control (at x) ≡ at (step control x)
  control-step (early p c status) h =
      ap (with (at (early p c status)))
        (controlled_quiet c (prepared p) (level-prepared float matrix_a matrix_b p))
  control-step (counting j c status) h = ap (with (at (counting j c status))) (
      controlled_quiet c (course float matrix_a matrix_b j).0
        (course-level float matrix_a matrix_b j h))
  control-step (ended c i status) h =
      ap (with (at (ended c i status)))
        (controlled c i (course float matrix_a matrix_b 8).0 true level-end)
  control-step (received c i) h =
      ap (with (at (received c i)))
        (controlled c i (course float matrix_a matrix_b 8).0 true level-end)
  control-step (known c i) h =
      ap (with (at (known c i)))
        (controlled c i (course float matrix_a matrix_b 8).0 true level-end)
  control-step (stopped c i) h = ap (with (at (stopped c i))) (
      controlled c i (record (course float matrix_a matrix_b 8).0 { reg_int_status = 0 }) false
        level-cleared)

  pub turn-step : (t : Thread) (x : Stage) → InRange x → turn float t (at x) ≡ at (step t x)
  turn-step test x h = test-step x
  turn-step compute x h = compute-step x h
  turn-step control x h = control-step x h
