-- ===== src/Device/Tests.antt =====
-- The device on concrete inputs: registers, and products in integer arithmetic.
use pcie_systemc_linux.Prelude.{
  ◌^◌, true, ◌++◌, ℕ, ◌+◌, ◌*◌, ◌≡◌, refl, List, [], ◌∷◌, length, get_or, arith,
}
use pcie_systemc_linux.Device.State.{
  Device, ComputeThread, ControllerThread, running, writing_c, start_of_simulation,
  interrupt_controller,
}
use pcie_systemc_linux.Prelude.Bytes.{le_bytes}
use pcie_systemc_linux.Tlm.{Payload, Command, request}
use pcie_systemc_linux.Device.Mmio.{bar0_b_transport}
use pcie_systemc_linux.Prelude.Bits.{bit_at}
use pcie_systemc_linux.Device.Registers.Acknowledge.{mmio_write32-int_status}
use pcie_systemc_linux.Device.Registers.Halves.{
  matrix_a, low_then_high, high_then_low, mmio_write64-mmio_write32,
}
use pcie_systemc_linux.Testbench.Memory.{host_memory, b_transport}
use pcie_systemc_linux.Device.Sound.{IsSound}
use pcie_systemc_linux.Device.History.{Reachable-IsSound, accessed, started}
use pcie_systemc_linux.Device.Line.Level
use pcie_systemc_linux.Device.Line.Level.{Attended-level}
use pcie_systemc_linux.Device.Line.Interrupt.{level}
use pcie_systemc_linux.Device.Compute.{FloatOps, row_loop, compute_thread, finish}
use pcie_systemc_linux.Device.Registers.Bounds.{IsBounded}
use pcie_systemc_linux.Device.Registers.Words.{offset, a_high, c_high, mmio_read32-mmio_write32}
use pcie_systemc_linux.Device.Multiply.Product.{matrix_product, matrix_product-dot}
use pcie_systemc_linux.Testbench.Mmio.{mmio_read32, mmio_write32, mmio_write64}

start-IsBounded : IsBounded start_of_simulation
start-IsBounded = record {
  control = omega arith;
  status = omega arith;
  size = omega arith;
  a_ptr = omega arith;
  b_ptr = omega arith;
  c_ptr = omega arith;
  pending = omega arith;
  enabled = omega arith;
}

mmio_read32-mmio_write32_example :
    (mmio_read32 0
      (mmio_write32 0 start_of_simulation (offset a_high) 5).device
      (offset a_high)
      7).value
    ≡ 5
mmio_read32-mmio_write32_example =
    mmio_read32-mmio_write32 0 7 start_of_simulation a_high a_high 5 start-IsBounded (omega arith)

mmio_write32-c_high :
    (mmio_read32 0
      (mmio_write32 0 start_of_simulation (offset c_high) 5).device
      (offset c_high)
      7).value
    ≡ 5
unfolding mmio_read32 mmio_write32
mmio_write32-c_high = refl

abbrev integers : FloatOps
integers = record { add = ◌+◌; mul = ◌*◌ }

abbrev two_by_two : List ℕ
two_by_two = 1 ∷ 2 ∷ 3 ∷ 4 ∷ []

matrix_product-two_by_two : matrix_product integers 2 two_by_two two_by_two ≡ 7 ∷ 10 ∷ 15 ∷ 22 ∷ []
unfolding matrix_product row_loop
matrix_product-two_by_two = refl

matrix_product-dot_example :
    (length (matrix_product integers 2 two_by_two two_by_two) ≡ 4)
    × (get_or (matrix_product integers 2 two_by_two two_by_two) 2 0 ≡ 15)
matrix_product-dot_example =
    matrix_product-dot integers 2 two_by_two two_by_two (omega arith) 1 0 (omega arith)
      (omega arith)

-- CONTROL written with START.
abbrev start_request : Payload
start_request = request Command.write 0 (le_bytes 4 1) 4

Reachable-IsSound_example : IsSound (bar0_b_transport 0 start_of_simulation start_request 0).state
Reachable-IsSound_example = Reachable-IsSound integers _ (accessed 0 start_request 0 started)

-- INT_ENABLE written with 1: the first event, which only starts the controller.
abbrev enable_request : Payload
enable_request = request Command.write 0x2C (le_bytes 4 1) 4

abbrev enabled : Device
enabled = interrupt_controller (bar0_b_transport 0 start_of_simulation enable_request 0).state

Attended-level_example : enabled.interrupt ≡ level enabled
Attended-level_example =
    Attended-level integers enabled (Level.accessed 0 enable_request 0 refl Level.started)

mmio_write64-mmio_write32_example :
    ((mmio_write64 0 start_of_simulation 0x10 (2 ^ 40 + 5)).device
      ≡ low_then_high 0 start_of_simulation matrix_a (2 ^ 40 + 5))
    × ((mmio_write64 0 start_of_simulation 0x10 (2 ^ 40 + 5)).device
        ≡ high_then_low 0 start_of_simulation matrix_a (2 ^ 40 + 5))
mmio_write64-mmio_write32_example =
    mmio_write64-mmio_write32 0 start_of_simulation matrix_a (2 ^ 40 + 5) (omega arith)
      (omega arith)

-- An eight-byte write of DIM_N stores 0, and an eight-byte read of STATUS shows the word behind the
-- local variable.
wide_write :
    (bar0_b_transport 0
      (record start_of_simulation { reg_dim_n = 3 })
      (request Command.write 8 (le_bytes 8 4) 8)
      0).state.reg_dim_n
    ≡ 0
unfolding bar0_b_transport
wide_write = refl

wide_read :
    (bar0_b_transport 0xCAFE start_of_simulation
      (request Command.read 4 (le_bytes 8 0) 8)
      0).trans.buffer
    ≡ le_bytes 4 1 ++ le_bytes 4 0xCAFE
unfolding bar0_b_transport
wide_read = refl

-- A reset lowers no line that is high: nothing notifies the controller.
abbrev interrupting : Device
interrupting = record start_of_simulation {
  reg_int_status = 1;
  reg_int_enable = 1;
  controller = ControllerThread.waiting;
  interrupt = true;
}

abbrev reset_write : Payload
reset_write = request Command.write 0 (le_bytes 4 2) 4

reset_keeps-interrupt :
    (interrupt_controller (bar0_b_transport 0 interrupting reset_write 0).state).interrupt ≡ true
unfolding interrupt_controller bar0_b_transport
reset_keeps-interrupt = refl

-- A start after a reset while a multiplication runs: the request is there, and the thread, back
-- at its event, is not woken for it.
abbrev multiplying : Device
multiplying = record start_of_simulation {
  reg_dim_n = 2;
  reg_status = 2;
  compute = running (writing_c 2 true);
}

abbrev restarted : Device
restarted = (bar0_b_transport 0 multiplying (request Command.write 0 (le_bytes 4 3) 4) 0).state

abbrev done_after : Device
done_after = (compute_thread integers b_transport restarted host_memory).device

restart_lost :
    (done_after.computation_requested ≡ true)
    × (done_after.compute ≡ ComputeThread.waiting)
    × (done_after.reg_status ≡ 5)
unfolding bar0_b_transport compute_thread finish
restart_lost = (refl, refl, refl)

mmio_write32-int_status_example :
    (bit_at (mmio_write32 0 interrupting 0x28 1).device.reg_int_status 0 ≡ 0)
    × ((mmio_write32 0 interrupting 0x28 1).device.controller ≡ ControllerThread.woken)
mmio_write32-int_status_example =
    mmio_write32-int_status 0 interrupting 1 0 (omega arith) (omega arith)
