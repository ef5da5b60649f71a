-- ===== src/Testbench/Tests.antt =====
-- The device against a small host memory, in integer arithmetic.
use pcie_systemc_linux.Prelude.{zero, suc}
use pcie_systemc_linux.Device.Multiply.Liveness.{Event, access, compute, control}
use pcie_systemc_linux.Device.Multiply.Polled.{run_events}
use pcie_systemc_linux.Testbench.Duration.{resume_time, multiplication_time}
use pcie_systemc_linux.Prelude.{
  List, replicate, ◌++◌, ℕ, ◌^◌, ◌-◌, ◌≤◌, ◌<◌, ◌≢◌, ◌⊎◌, ◌+◌, ◌*◌, ◌≡◌, refl, true, [], ◌∷◌,
  get_or, arith,
}
use pcie_systemc_linux.Prelude.Bytes.{le_bytes, words_to_bytes}
use pcie_systemc_linux.Device.State.{Device, ComputeThread, start_of_simulation}
use pcie_systemc_linux.Device.Compute.{FloatOps, finish, row_loop, dma_read, dma_write}
use pcie_systemc_linux.Device.Multiply.Product.{matrix_product}
use pcie_systemc_linux.Device.Multiply.Run.{
  resume, requested, accepted, left_by, multiply_at_once, resume-multiply_at_once,
}
use pcie_systemc_linux.Testbench.Memory.{read_data, HostMemory, store, b_transport}
use pcie_systemc_linux.Tlm.{Payload, Command, Response, request}
use pcie_systemc_linux.Testbench.Simulation.Sequence.{Bench, bench, stopping, started}
use pcie_systemc_linux.Testbench.Simulation.Result.{Simulated-product}
use pcie_systemc_linux.Testbench.Simulation.Report.{print_result, report}
use pcie_systemc_linux.Testbench.Simulation.Schedule.{run, timely, run-Simulated, run-timely}
use pcie_systemc_linux.Testbench.Simulation.Rounds.{
  Order, rounds, control_compute_test, test_control_compute,
}
use pcie_systemc_linux.Testbench.Simulation.Fair.{rounds-report}
use pcie_systemc_linux.Testbench.Refused.{b_transport-range}
use pcie_systemc_linux.Testbench.Program.{program, program-product}
use pcie_systemc_linux.Testbench.Mmio.{mmio_read32}
use pcie_systemc_linux.Testbench.Multiply.{multiplication_completes}

abbrev integers : FloatOps
integers = record { add = ◌+◌; mul = ◌*◌ }

-- Two 2x2 matrices at 0 and 16, and room for a third at 32.
abbrev small_memory : HostMemory
small_memory = record {
  size = 48;
  cell = λ q. get_or (words_to_bytes (1 ∷ 2 ∷ 3 ∷ 4 ∷ 5 ∷ 6 ∷ 7 ∷ 8 ∷ [])) q 0;
}

abbrev set_up : Device
set_up = record start_of_simulation { reg_dim_n = 2; reg_matrix_b_ptr = 16; reg_matrix_c_ptr = 32 }

multiply_small : (multiply_at_once integers b_transport set_up small_memory).0 ≡ true
unfolding multiply_at_once b_transport dma_read dma_write
multiply_small = refl

multiplication_completes_example : resume integers b_transport 6 (requested set_up) small_memory ≡ (
  finish true (accepted set_up),
  store small_memory 32 (words_to_bytes (19 ∷ 22 ∷ 43 ∷ 50 ∷ [])),
)
unfolding matrix_product row_loop
multiplication_completes_example =
    multiplication_completes integers set_up small_memory (omega arith) (omega arith) (omega arith)
      (omega arith) (omega arith) (omega arith)

-- Matrix C would end beyond the memory: the transfer of the product fails.
abbrev outside : Device
outside = record set_up { reg_matrix_c_ptr = 33 }

resume-multiply_at_once_example :
    resume integers b_transport 6 (requested outside) small_memory
    ≡ left_by (multiply_at_once integers b_transport outside small_memory) (accepted outside)
resume-multiply_at_once_example = resume-multiply_at_once integers b_transport outside small_memory

-- A transfer that would end one byte beyond the memory.
abbrev beyond : Payload
beyond = request Command.read 45 (le_bytes 4 0) 4

b_transport-range_example :
    ((48 < 49)
      × (b_transport small_memory beyond 0 ≡ record {
        state = small_memory;
        trans = record beyond { response = Response.address_error };
        delay = 0;
      }))
    ⊎ ((49 ≤ 48)
        × ((b_transport small_memory beyond 0).trans.response ≡ Response.ok)
        × ((b_transport small_memory beyond 0).delay ≡ 20)
        × ((b_transport small_memory beyond 0).state.size ≡ 48)
        × ((a : ℕ)
            → (Command.read ≢ Command.write) ⊎ (a < 45) ⊎ (49 ≤ a)
            → (b_transport small_memory beyond 0).state.cell a ≡ small_memory.cell a))
b_transport-range_example = b_transport-range small_memory beyond 0 (omega arith)

-- A transfer whose end passes 2 ^ 64 is not refused.
end_wraps :
    (b_transport small_memory (request Command.read (2 ^ 64 - 4) (le_bytes 8 0) 8) 0).trans.response
    ≡ Response.ok
unfolding b_transport
end_wraps = refl

-- The matrices of `sc_main`, with integers for floats.
abbrev identity : List ℕ
identity = 1 ∷ 0 ∷ 0 ∷ 0 ∷ 0 ∷ 1 ∷ 0 ∷ 0 ∷ 0 ∷ 0 ∷ 1 ∷ 0 ∷ 0 ∷ 0 ∷ 0 ∷ 1 ∷ []

abbrev twos : List ℕ
twos = replicate 16 2

abbrev at_end : Bench
at_end = run integers timely (bench identity twos)

-- Nineteen rounds, in two orders.
abbrev two_orders : List Order
two_orders = replicate 9 control_compute_test ++ replicate 10 test_control_compute

rounds-report_example :
    ((run integers (rounds two_orders) (bench identity twos)).place ≡ stopping)
    × (print_result (run integers (rounds two_orders) (bench identity twos)).memory (replicate 64 0)
        ≡ report (matrix_product integers 4 identity twos))
rounds-report_example =
    rounds-report integers identity twos two_orders (replicate 64 0) refl refl (ground arith)
      (ground arith) refl (omega arith)

Simulated-product_example :
    (read_data at_end.memory 0x3000 (replicate 64 0) 64
      ≡ words_to_bytes (matrix_product integers 4 identity twos))
    × (print_result at_end.memory (replicate 64 0)
        ≡ report (matrix_product integers 4 identity twos))
    × (at_end.status ≡ 5)
    × (at_end.int_status ≡ 1)
Simulated-product_example =
    Simulated-product integers identity twos refl refl (ground arith) (ground arith) at_end
      (replicate 64 0) (run-Simulated integers identity twos timely _ started)
      (run-timely integers identity twos refl refl) refl

product-twos : matrix_product integers 4 identity twos ≡ twos
unfolding matrix_product row_loop
product-twos = refl

-- The two matrices of the small memory, through the registers, with a read of STATUS before each step.
abbrev polling : ℕ → List Event
polling zero = control ∷ []
polling (suc k) = access 0 (request Command.read 4 (le_bytes 4 0) 4) 0 ∷ compute ∷ polling k

abbrev programmed : Device × HostMemory
programmed =
    run_events integers b_transport (polling 7) (program 0 start_of_simulation 2 0 16 32)
      small_memory

program-product_example :
    (programmed.1 ≡ store small_memory 32 (words_to_bytes (19 ∷ 22 ∷ 43 ∷ 50 ∷ [])))
    × ((mmio_read32 0 programmed.0 0x04 7).value ≡ 5)
    × (programmed.0.compute ≡ ComputeThread.waiting)
unfolding matrix_product row_loop
program-product_example =
    program-product integers 0 7 start_of_simulation 2 0 16 32 small_memory (polling 7)
      (grind arith) (omega arith) refl refl (omega arith) (omega arith) (omega arith) (omega arith)
      (omega arith) (omega arith)

-- Two rows: 210 + 8.
multiplication_time_example : resume_time integers 6 (requested set_up) small_memory ≡ 218
multiplication_time_example =
    multiplication_time integers set_up small_memory (omega arith) (omega arith) (omega arith)
      (omega arith) (omega arith) (omega arith)
