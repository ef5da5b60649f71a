-- ===== src/Device/Histories.antt =====
-- Histories of the device on concrete transactions, in integer arithmetic.
use pcie_systemc_linux.Device.State.{ComputeThread, running, reading_a}
use pcie_systemc_linux.Device.Requests.Lost.{restarted, restarted-lost}
use pcie_systemc_linux.Device.Multiply.Run.{resume}
use pcie_systemc_linux.Device.Multiply.Polled.{core, run_events, run_events-resume}
use pcie_systemc_linux.Device.State.{interrupt_controller}
use pcie_systemc_linux.Device.Requests.Job.{Request, Progresses, job, job-refines}
use pcie_systemc_linux.Prelude.{true, ◌∷◌, ◌≡◌}
use pcie_systemc_linux.Device.Multiply.Liveness.{
  Event, access, compute, control, ever_waits, ever_waits_in_time,
}
use pcie_systemc_linux.Prelude.{arith, ℕ, ◌+◌, ◌*◌, refl, replicate, List, []}
use pcie_systemc_linux.Prelude.Bytes.{le_bytes}
use pcie_systemc_linux.Tlm.{Payload, Command, request}
use pcie_systemc_linux.Device.State.{Device, start_of_simulation}
use pcie_systemc_linux.Device.Mmio.{bar0_b_transport}
use pcie_systemc_linux.Device.Compute.{FloatOps, compute_thread}
use pcie_systemc_linux.Device.History.{Reachable, started, accessed, computed}
use pcie_systemc_linux.Device.Requests.Served
use pcie_systemc_linux.Device.Requests.Served.{Serves, Unreset-Serves}
use pcie_systemc_linux.Device.Registers.Typed
use pcie_systemc_linux.Device.Multiply.Transfers.{noted, AllTransfers, Reachable-AllTransfers}
use pcie_systemc_linux.Device.Multiply.Undisturbed.{IsRowOrProduct, Reachable-product}
use pcie_systemc_linux.Testbench.Memory.{host_memory, b_transport}

abbrev integers : FloatOps
integers = record { add = ◌+◌; mul = ◌*◌ }

abbrev set_size : ℕ → Payload
set_size n = request Command.write 8 (le_bytes 4 n) 4

abbrev start : Payload
start = request Command.write 0 (le_bytes 4 1) 4

abbrev sized : Device
sized = (bar0_b_transport 0 start_of_simulation (set_size 2) 0).state

abbrev started_device : Device
started_device = (bar0_b_transport 0 sized start 0).state

started-Reachable : Reachable integers started_device
started-Reachable = accessed 0 start 0 (accessed 0 (set_size 2) 0 started)

Unreset-Serves_example : Serves started_device
Unreset-Serves_example =
    Unreset-Serves integers started_device
      (Served.accessed 0 start 0 refl (Served.accessed 0 (set_size 2) 0 refl Served.started))

Reachable-AllTransfers_example :
    AllTransfers
      (compute_thread integers (noted b_transport) started_device (host_memory, [])).memory.1
Reachable-AllTransfers_example =
    Reachable-AllTransfers integers started_device started-Reachable b_transport host_memory [] tt

-- Three steps on, with one row done; then the size is written again.
abbrev stepped : Device → Device
stepped d = (compute_thread integers b_transport d host_memory).device

abbrev disturbed : Device
disturbed = (bar0_b_transport 0 (stepped (stepped (stepped started_device))) (set_size 7) 0).state

disturbed-Reachable : Reachable integers disturbed
disturbed-Reachable = accessed 0 (set_size 7) 0 (
    computed b_transport host_memory
      (computed b_transport host_memory (computed b_transport host_memory started-Reachable)))

abbrev zeros : List ℕ
zeros = replicate 4 0

Reachable-product_example :
    IsRowOrProduct integers b_transport disturbed host_memory 2 1 zeros zeros
      (compute_thread integers b_transport disturbed host_memory)
unfolding bar0_b_transport compute_thread b_transport
Reachable-product_example =
    Reachable-product integers b_transport disturbed host_memory 2 1 zeros zeros zeros
      disturbed-Reachable refl

-- A reset with a start, and steps of both threads, while a multiplication runs.
abbrev reset_and_start : Payload
reset_and_start = request Command.write 0 (le_bytes 4 3) 4

abbrev events : List Event
events = compute ∷ access 0 reset_and_start 0 ∷ control ∷ replicate 3 compute

ever_waits_in_time_example : ever_waits integers b_transport events disturbed host_memory ≡ true
unfolding bar0_b_transport compute_thread b_transport
ever_waits_in_time_example =
    ever_waits_in_time integers b_transport events disturbed host_memory disturbed-Reachable
      (omega arith)

-- START on the device with its size set.
job-refines_example :
    Request (job sized) (job started_device)
    × Progresses (job sized) (job (compute_thread integers b_transport sized host_memory).device)
    × (job (interrupt_controller sized) ≡ job sized)
job-refines_example =
    job-refines integers sized (Served.accessed 0 (set_size 2) 0 refl Served.started) 0 start 0 refl
      b_transport host_memory

-- STATUS read, and the controller's step, between two steps of a multiplication.
abbrev polled : List Event
polled = compute ∷ access 0 (request Command.read 4 (le_bytes 4 0) 4) 0 ∷ control ∷ compute ∷ []

run_events-resume_example :
    ((run_events integers b_transport polled started_device host_memory).1
      ≡ (resume integers b_transport 2 started_device host_memory).1)
    × (core (run_events integers b_transport polled started_device host_memory).0
        ≡ core (resume integers b_transport 2 started_device host_memory).0)
run_events-resume_example =
    run_events-resume integers b_transport polled started_device host_memory (grind arith)

-- A reset with a start while matrix A is fetched.
abbrev fetching : Device
fetching = stepped started_device

restarted-lost_example :
    ((restarted 0 fetching).reg_status ≡ 1)
    × ((restarted 0 fetching).compute ≡ running (reading_a 2 zeros true))
    × ((resume integers b_transport 5 (restarted 0 fetching) host_memory).0.compute
        ≡ ComputeThread.waiting)
    × ((resume integers b_transport 5 (restarted 0 fetching) host_memory).0.computation_requested
        ≡ true)
unfolding bar0_b_transport compute_thread b_transport
restarted-lost_example =
    restarted-lost integers b_transport 0 fetching host_memory (reading_a 2 zeros true) 5
      (computed b_transport host_memory started-Reachable) refl (omega arith)
