-- ===== src/Testbench/Simulation/Stages.antt =====
-- The simulation as a machine of a few stages: what each thread's step does to the stage.
use pcie_systemc_linux.Prelude.{ℕ, ◌+◌, ◌<◌, Bool, true, false, ◌==◌, if◌then◌else◌}
use pcie_systemc_linux.Device.State.{ControllerThread, notify_update}
use pcie_systemc_linux.Testbench.Simulation.Course.{next_place, next_line}
use pcie_systemc_linux.Testbench.Simulation.Phases.{
  Early, at_status, at_n, at_a, at_b, at_c, at_enable, at_start,
}
use pcie_systemc_linux.Testbench.Simulation.Schedule.{Thread, test, compute, control}

-- Before the start; after `j` steps of the multiplication; and after its end, when the test thread
-- polls, has received the interrupt, knows its status, or has stopped. `c` is where the controller
-- stands and `i` the line.
pub data Stage : Type 0 where
  early : (p : Early) (c : ControllerThread) (status : ℕ) → Stage
  counting : (j : ℕ) (c : ControllerThread) (status : ℕ) → Stage
  ended : (c : ControllerThread) (i : Bool) (status : ℕ) → Stage
  received known stopped : (c : ControllerThread) (i : Bool) → Stage

-- What each thread does to the stage.
abbrev pub step : Thread → Stage → Stage
step test (early at_status c status) = early at_n c 1
step test (early at_n c status) = early at_a c status
step test (early at_a c status) = early at_b c status
step test (early at_b c status) = early at_c c status
step test (early at_c c status) = early at_enable c status
step test (early at_enable c status) = early at_start (notify_update c) status
step test (early at_start c status) = counting 0 c status
step test (counting j c status) = counting j c status
step test (ended c false status) = ended c false status
step test (ended c true status) = received c true
step test (received c i) = known c i
step test (known c i) = stopped (notify_update c) i
step test (stopped c i) = stopped c i
step compute (early p c status) = early p c status
step compute (counting j c status) =
    if j == 7 then ended (notify_update c) false status else counting (j + 1) c status
step compute (ended c i status) = ended c i status
step compute (received c i) = received c i
step compute (known c i) = known c i
step compute (stopped c i) = stopped c i
step control (early p c status) = early p (next_place c) status
step control (counting j c status) = counting j (next_place c) status
step control (ended c i status) = ended (next_place c) (next_line c i true) status
step control (received c i) = received (next_place c) (next_line c i true)
step control (known c i) = known (next_place c) (next_line c i true)
step control (stopped c i) = stopped (next_place c) (next_line c i false)

-- The multiplication has eight steps.
abbrev pub InRange : Stage → Type 0
InRange (counting j c status) = j < 8
InRange _ = Unit {0}
