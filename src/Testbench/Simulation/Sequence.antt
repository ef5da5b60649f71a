-- ===== src/Testbench/Simulation/Sequence.antt =====
-- `test_sequence` and `sc_main` of custom-endpoint/testbench.cpp. The test thread, the device's
-- two threads and the memory make one system; a step takes one of the threads from where it is
-- suspended to its next `wait`, and the order of the steps is left open, as the times at which
-- the threads wake are.
use pcie_systemc_linux.Prelude.{ℕ, List, if◌then◌else◌}
use pcie_systemc_linux.Prelude.Bytes.{words_to_bytes}
use pcie_systemc_linux.Device.State.{
  Device, start_of_simulation, interrupt_controller, reg_control_offset, reg_status_offset,
  reg_dim_n_offset, reg_matrix_a_ptr_offset, reg_matrix_b_ptr_offset, reg_matrix_c_ptr_offset,
  reg_int_status_offset, reg_int_enable_offset,
}
use pcie_systemc_linux.Device.Compute.{FloatOps, compute_thread}
use pcie_systemc_linux.Testbench.Memory.{HostMemory, host_memory, write_data, b_transport}
use pcie_systemc_linux.Testbench.Mmio.{mmio_read32, mmio_write32, mmio_write64}

-- Where `test_sequence` is suspended, by what it does next.
pub data Place : Type 0 where
  reading_status setting_n setting_a setting_b setting_c enabling starting polling : Place
  reading_int_status clearing_int_status stopping : Place

-- `status` and `int_status` are the thread's variables.
pub record Bench : Type 0 where
  pub device : Device
  pub memory : HostMemory
  pub place : Place
  pub status : ℕ
  pub int_status : ℕ

-- A step of `test_sequence`. `behind` and `garbage` are what lies in uninitialised storage.
module _ (behind garbage : ℕ) where
  unfoldable pub test_sequence : Place → Bench → Bench
  unfolding mmio_read32 mmio_write32 mmio_write64
  test_sequence reading_status s =
      let r = mmio_read32 behind s.device reg_status_offset garbage in
      record s { device = r.device; status = r.value; place = setting_n }
  test_sequence setting_n s = record s {
    device = (mmio_write32 behind s.device reg_dim_n_offset 4).device;
    place = setting_a;
  }
  test_sequence setting_a s = record s {
    device = (mmio_write64 behind s.device reg_matrix_a_ptr_offset 0x1000).device;
    place = setting_b;
  }
  test_sequence setting_b s = record s {
    device = (mmio_write64 behind s.device reg_matrix_b_ptr_offset 0x2000).device;
    place = setting_c;
  }
  test_sequence setting_c s = record s {
    device = (mmio_write64 behind s.device reg_matrix_c_ptr_offset 0x3000).device;
    place = enabling;
  }
  test_sequence enabling s = record s {
    device = (mmio_write32 behind s.device reg_int_enable_offset 1).device;
    place = starting;
  }
  test_sequence starting s = record s {
    device = (mmio_write32 behind s.device reg_control_offset 1).device;
    place = polling;
  }
  test_sequence polling s =
      let r = mmio_read32 behind s.device reg_status_offset garbage in
      if s.device.interrupt
      then record s { device = r.device; status = r.value; place = reading_int_status }
      else s
  test_sequence reading_int_status s =
      let r = mmio_read32 behind s.device reg_int_status_offset garbage in
      record s { device = r.device; int_status = r.value; place = clearing_int_status }
  test_sequence clearing_int_status s = record s {
    device = (mmio_write32 behind s.device reg_int_status_offset s.int_status).device;
    place = stopping;
  }
  test_sequence stopping s = s

-- `sc_main` up to `sc_start`: the two matrices are in the memory.
abbrev pub memory_at_start : (matrix_a matrix_b : List ℕ) → HostMemory
memory_at_start matrix_a matrix_b =
    write_data (write_data host_memory 0x1000 (words_to_bytes matrix_a)) 0x2000
      (words_to_bytes matrix_b)

abbrev pub bench : (matrix_a matrix_b : List ℕ) → Bench
bench matrix_a matrix_b = record {
  device = start_of_simulation;
  memory = memory_at_start matrix_a matrix_b;
  place = reading_status;
  status = 0;
  int_status = 0;
}

-- A step of the device's compute thread, with the memory behind its DMA socket.
abbrev pub compute_step : FloatOps → Bench → Bench
compute_step float s =
    let r = compute_thread float b_transport s.device s.memory in
    record s { device = r.device; memory = r.memory }

-- The states that the simulation can come to.
pub data Simulated (float : FloatOps) (matrix_a matrix_b : List ℕ) : Bench → Type 0 where
  started : Simulated float matrix_a matrix_b (bench matrix_a matrix_b)
  tested :
      {s : Bench} (behind garbage : ℕ)
      → Simulated float matrix_a matrix_b s
      → Simulated float matrix_a matrix_b (test_sequence behind garbage s.place s)
  computed :
      {s : Bench}
      → Simulated float matrix_a matrix_b s
      → Simulated float matrix_a matrix_b (compute_step float s)
  controlled :
      {s : Bench}
      → Simulated float matrix_a matrix_b s
      → Simulated float matrix_a matrix_b (record s { device = interrupt_controller s.device })
