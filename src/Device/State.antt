-- ===== src/Device/State.antt =====
-- The state of `matrix_multiplier_pcie`: its registers, where its two threads stand, and its
-- interrupt line. A thread that waits is resumed by an event, so `notify` is a change of its state.
use pcie_systemc_linux.Prelude.{ℕ, Bool, false, not, List, bit_and, ◌==◌}

-- Register map for BAR0.
abbrev pub reg_control_offset : ℕ
reg_control_offset = 0x0000

abbrev pub reg_status_offset : ℕ
reg_status_offset = 0x0004

abbrev pub reg_dim_n_offset : ℕ
reg_dim_n_offset = 0x0008

abbrev pub reg_matrix_a_ptr_offset : ℕ
reg_matrix_a_ptr_offset = 0x0010

abbrev pub reg_matrix_b_ptr_offset : ℕ
reg_matrix_b_ptr_offset = 0x0018

abbrev pub reg_matrix_c_ptr_offset : ℕ
reg_matrix_c_ptr_offset = 0x0020

abbrev pub reg_int_status_offset : ℕ
reg_int_status_offset = 0x0028

abbrev pub reg_int_enable_offset : ℕ
reg_int_enable_offset = 0x002C

-- Control register bits.
abbrev pub ctrl_start : ℕ
ctrl_start = 1

abbrev pub ctrl_reset : ℕ
ctrl_reset = 2

-- Status register bits.
abbrev pub status_idle : ℕ
status_idle = 1

abbrev pub status_busy : ℕ
status_busy = 2

abbrev pub status_done : ℕ
status_done = 4

abbrev pub status_error : ℕ
status_error = 8

-- Interrupt bits.
abbrev pub int_done : ℕ
int_done = 1

-- A C condition `value & mask`.
abbrev pub bit_set : ℕ → ℕ → Bool
bit_set value mask = not (bit_and value mask == 0)

-- The `wait` at which `perform_matrix_multiply` is suspended, with its live local variables: `n`,
-- the vectors (a float is its 32-bit pattern), the rows done, and whether the DMA transfer
-- succeeded.
pub data Progress : Type 0 where
  reading_a : (n : ℕ) (matrix_a : List ℕ) (success : Bool) → Progress
  reading_b : (n : ℕ) (matrix_a matrix_b : List ℕ) (success : Bool) → Progress
  row_done : (n rows : ℕ) (matrix_a matrix_b matrix_c : List ℕ) → Progress
  writing_c : (n : ℕ) (success : Bool) → Progress

-- `compute_thread`: at `wait(start_event)`, resumed by that event, or inside a multiplication.
pub data ComputeThread : Type 0 where
  waiting woken : ComputeThread
  running : Progress → ComputeThread

-- `interrupt_controller`: because of `dont_initialize` it is started by its first event, which
-- takes it to its `wait()`; the later events resume it from there.
pub data ControllerThread : Type 0 where
  unstarted starting waiting woken : ControllerThread

pub record Device : Type 0 where
  pub reg_control : ℕ
  pub reg_status : ℕ
  pub reg_dim_n : ℕ
  pub reg_matrix_a_ptr : ℕ
  pub reg_matrix_b_ptr : ℕ
  pub reg_matrix_c_ptr : ℕ
  pub reg_int_status : ℕ
  pub reg_int_enable : ℕ
  pub computation_requested : Bool
  pub compute : ComputeThread
  pub controller : ControllerThread
  pub interrupt : Bool

unfoldable pub reset_device : Device → Device
reset_device d = record d {
  reg_control = 0;
  reg_status = status_idle;
  reg_dim_n = 0;
  reg_matrix_a_ptr = 0;
  reg_matrix_b_ptr = 0;
  reg_matrix_c_ptr = 0;
  reg_int_status = 0;
  reg_int_enable = 0;
  computation_requested = false;
}

-- `start_event.notify()`: an immediate notification resumes the thread only if it waits for the
-- event.
abbrev pub notify_start : ComputeThread → ComputeThread
notify_start waiting = woken
notify_start woken = woken
notify_start (running p) = running p

-- `interrupt_update_event.notify()`
abbrev pub notify_update : ControllerThread → ControllerThread
notify_update unstarted = starting
notify_update starting = starting
notify_update waiting = woken
notify_update woken = woken

unfoldable pub update_interrupt : Device → Device
update_interrupt d = record d { controller = notify_update d.controller }

-- The device once the simulation has begun: the constructor's `reset_device`, the compute thread at
-- its `wait`, and `start_of_simulation` has lowered the interrupt line.
abbrev pub start_of_simulation : Device
start_of_simulation = record {
  reg_control = 0;
  reg_status = status_idle;
  reg_dim_n = 0;
  reg_matrix_a_ptr = 0;
  reg_matrix_b_ptr = 0;
  reg_matrix_c_ptr = 0;
  reg_int_status = 0;
  reg_int_enable = 0;
  computation_requested = false;
  compute = waiting;
  controller = unstarted;
  interrupt = false;
}

-- `interrupt_controller` from where it was resumed to its next `wait()`.
abbrev pub drive_interrupt : ControllerThread → Device → Device
drive_interrupt unstarted d = d
drive_interrupt starting d = record d { controller = waiting }
drive_interrupt waiting d = d
drive_interrupt woken d = record d {
  controller = waiting;
  interrupt = bit_set d.reg_int_status d.reg_int_enable;
}

unfoldable pub interrupt_controller : Device → Device
interrupt_controller d = drive_interrupt d.controller d
