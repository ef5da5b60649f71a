-- ===== src/Testbench/Simulation/Phases.antt =====
-- The phases of a simulation of the test bench, and the steps of its test thread.
use mathlib.Core.Path.{subst}
use mathlib.Core.Bool.{false≢true}
use pcie_systemc_linux.Prelude.{ℕ, ◌≤◌, ◌≡◌, refl, sym, Bool, true, false, List}
use pcie_systemc_linux.Device.State.{
  Device, ControllerThread, notify_update, update_interrupt, start_of_simulation,
}
use pcie_systemc_linux.Device.Mmio.{write_register}
use pcie_systemc_linux.Device.Compute.{FloatOps, finish}
use pcie_systemc_linux.Device.Multiply.Run.{resume}
use pcie_systemc_linux.Testbench.Memory.{HostMemory}
use pcie_systemc_linux.Testbench.Simulation.Sequence.{
  Bench, Place, test_sequence, reading_status, setting_n, setting_a, setting_b, setting_c, enabling,
  polling, reading_int_status, clearing_int_status, stopping,
}
use pcie_systemc_linux.Testbench.Simulation.Line.{lined}
use pcie_systemc_linux.Testbench.Simulation.Course.{set_up, done, stored, final, course, course_end}

-- The places before the start, and how far the device is set up at each.
pub data Early : Type 0 where
  at_status at_n at_a at_b at_c at_enable at_start : Early

abbrev pub place_of : Early → Place
place_of at_status = reading_status
place_of at_n = setting_n
place_of at_a = setting_a
place_of at_b = setting_b
place_of at_c = setting_c
place_of at_enable = enabling
place_of at_start = Place.starting

abbrev pub prepared : Early → Device
prepared at_status = start_of_simulation
prepared at_n = start_of_simulation
prepared at_a = record start_of_simulation { reg_dim_n = 4 }
prepared at_b = record start_of_simulation { reg_dim_n = 4; reg_matrix_a_ptr = 0x1000 }
prepared at_c = record start_of_simulation {
  reg_dim_n = 4;
  reg_matrix_a_ptr = 0x1000;
  reg_matrix_b_ptr = 0x2000;
}
prepared at_enable = record set_up { reg_control = 0; reg_int_enable = 0 }
prepared at_start = record set_up { reg_control = 0 }

-- The device after the interrupt has been cleared.
abbrev pub cleared : Device
cleared = record done { reg_int_status = 0 }

module _ (float : FloatOps) (matrix_a matrix_b : List ℕ) where
  -- The five phases of the simulation.
  pub data Phase : Bench → Type 0 where
    before :
        (p : Early) (c : ControllerThread) (status : ℕ)
        → Phase (record {
          device = lined c false (prepared p);
          memory = stored float matrix_a matrix_b;
          place = place_of p;
          status = status;
          int_status = 0;
        })
    polls :
        (j : ℕ) (c : ControllerThread) (i : Bool) (status : ℕ)
        → (i ≡ true → 8 ≤ j)
        → Phase (record {
          device = lined c i (course float matrix_a matrix_b j).0;
          memory = (course float matrix_a matrix_b j).1;
          place = polling;
          status = status;
          int_status = 0;
        })
    received :
        (c : ControllerThread) (i : Bool)
        → Phase (record {
          device = lined c i done;
          memory = final float matrix_a matrix_b;
          place = reading_int_status;
          status = 5;
          int_status = 0;
        })
    known :
        (c : ControllerThread) (i : Bool)
        → Phase (record {
          device = lined c i done;
          memory = final float matrix_a matrix_b;
          place = clearing_int_status;
          status = 5;
          int_status = 1;
        })
    stopped :
        (c : ControllerThread) (i : Bool)
        → Phase (record {
          device = lined c i cleared;
          memory = final float matrix_a matrix_b;
          place = stopping;
          status = 5;
          int_status = 1;
        })

  before-tested :
      (behind garbage : ℕ) (p : Early) (c : ControllerThread) (status : ℕ)
      → Phase (
          test_sequence behind garbage (place_of p) (record {
            device = lined c false (prepared p);
            memory = stored float matrix_a matrix_b;
            place = place_of p;
            status = status;
            int_status = 0;
          }))
  unfolding test_sequence write_register update_interrupt resume
  before-tested behind garbage at_status c status = before at_n c _
  before-tested behind garbage at_n c status = before at_a c status
  before-tested behind garbage at_a c status = before at_b c status
  before-tested behind garbage at_b c status = before at_c c status
  before-tested behind garbage at_c c status = before at_enable c status
  before-tested behind garbage at_enable c status = before at_start (notify_update c) status
  before-tested behind garbage at_start c status =
      polls 0 c false status (λ e. absurd (false≢true e))

  -- The test thread's step.
  seen :
      (behind garbage status : ℕ) (c : ControllerThread) (x : Device × HostMemory)
      → x ≡ (done, final float matrix_a matrix_b)
      → Phase (
          test_sequence behind garbage polling (record {
            device = lined c true x.0;
            memory = x.1;
            place = polling;
            status = status;
            int_status = 0;
          }))
  unfolding test_sequence finish update_interrupt
  seen behind garbage status c x e =
      subst
        (λ (x : Device × HostMemory). Phase (
          test_sequence behind garbage polling (record {
            device = lined c true x.0;
            memory = x.1;
            place = polling;
            status = status;
            int_status = 0;
          })))
        (sym e) (received c true)

  pub tested-Phase :
      (behind garbage : ℕ) (s : Bench) → Phase s → Phase (test_sequence behind garbage s.place s)
  unfolding test_sequence finish write_register update_interrupt
  tested-Phase behind garbage _ (before p c status) = before-tested behind garbage p c status
  tested-Phase behind garbage _ (polls j c false status h) = polls j c false status h
  tested-Phase behind garbage _ (polls j c true status h) =
      seen behind garbage status c (course float matrix_a matrix_b j)
        (course_end float matrix_a matrix_b j (h refl))
  tested-Phase behind garbage _ (received c i) = known c i
  tested-Phase behind garbage _ (known c i) = stopped (notify_update c) i
  tested-Phase behind garbage _ (stopped c i) = stopped c i
