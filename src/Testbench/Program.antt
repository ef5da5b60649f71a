-- ===== src/Testbench/Program.antt =====
-- The register protocol of `test_sequence` with any operands: the size, the three pointers, the
-- interrupt enable, and START.
use pcie_systemc_linux.Prelude.{
  List, ◌∙◌, ◌-◌, ℕ, ◌+◌, ◌*◌, ◌^◌, ◌≤◌, ◌<◌, ◌≡◌, refl, ap, true, arith,
}
use pcie_systemc_linux.Prelude.Bytes.{
  from_le, le_bytes, from_le-le_bytes4, from_le-le_bytes8, words_to_bytes,
}
use pcie_systemc_linux.Device.State.{
  Device, ComputeThread, bit_set, status_idle, notify_start, notify_update, update_interrupt,
}
use pcie_systemc_linux.Device.Compute.{FloatOps, finish}
use pcie_systemc_linux.Device.Multiply.Product.{matrix_product}
use pcie_systemc_linux.Device.Multiply.Run.{
  resume, resume_add, resume_finished, accepted, requested,
}
use pcie_systemc_linux.Device.Multiply.Liveness.{Event, compute_steps}
use pcie_systemc_linux.Device.Multiply.Polled.{run_events, IsPolling, core, run_events-resume}
use pcie_systemc_linux.Testbench.Memory.{HostMemory, store, b_transport}
use pcie_systemc_linux.Testbench.Mmio.{mmio_read32, mmio_write32, mmio_write64}
use pcie_systemc_linux.Testbench.Multiply.{matrix_at, multiplication_completes}

module _ (behind : ℕ) (d : Device) where
  write_size :
      (v : ℕ) → v < 2 ^ 32 → (mmio_write32 behind d 0x08 v).device ≡ record d { reg_dim_n = v }
  unfolding mmio_write32
  write_size v h = ap (λ t. record d { reg_dim_n = t }) (from_le-le_bytes4 v h)

  write_a :
      (v : ℕ)
      → v < 2 ^ 64
      → (mmio_write64 behind d 0x10 v).device ≡ record d { reg_matrix_a_ptr = v }
  unfolding mmio_write64
  write_a v h = ap (λ t. record d { reg_matrix_a_ptr = t }) (from_le-le_bytes8 v h)

  write_b :
      (v : ℕ)
      → v < 2 ^ 64
      → (mmio_write64 behind d 0x18 v).device ≡ record d { reg_matrix_b_ptr = v }
  unfolding mmio_write64
  write_b v h = ap (λ t. record d { reg_matrix_b_ptr = t }) (from_le-le_bytes8 v h)

  write_c :
      (v : ℕ)
      → v < 2 ^ 64
      → (mmio_write64 behind d 0x20 v).device ≡ record d { reg_matrix_c_ptr = v }
  unfolding mmio_write64
  write_c v h = ap (λ t. record d { reg_matrix_c_ptr = t }) (from_le-le_bytes8 v h)

  write_enable :
      (mmio_write32 behind d 0x2C 1).device
      ≡ record d { reg_int_enable = 1; controller = notify_update d.controller }
  unfolding mmio_write32
  write_enable = refl

  -- START on an idle device whose thread waits.
  write_start :
      d.compute ≡ ComputeThread.waiting
      → bit_set d.reg_status status_idle ≡ true
      → (mmio_write32 behind d 0x00 1).device ≡ requested (record d { reg_control = 1 })
  unfolding mmio_write32
  write_start e idle = rw idle (
      ap (λ t. record d { reg_control = 1; computation_requested = true; compute = notify_start t })
        e)

-- The writes of `test_sequence` between its first two reads of STATUS.
abbrev pub program : (behind : ℕ) → Device → (n a b c : ℕ) → Device
program behind d n a b c =
    let sized = (mmio_write32 behind d 0x08 n).device in
    let with_a = (mmio_write64 behind sized 0x10 a).device in
    let with_b = (mmio_write64 behind with_a 0x18 b).device in
    let with_c = (mmio_write64 behind with_b 0x20 c).device in
    let enabled = (mmio_write32 behind with_c 0x2C 1).device in
    (mmio_write32 behind enabled 0x00 1).device

module _ (behind : ℕ) (d : Device) (n a b c : ℕ) where
  -- What the registers then hold.
  abbrev programmed : Device
  programmed = record d {
    reg_control = 1;
    reg_dim_n = n;
    reg_matrix_a_ptr = a;
    reg_matrix_b_ptr = b;
    reg_matrix_c_ptr = c;
    reg_int_enable = 1;
    controller = notify_update d.controller;
  }

  module _ (waits : d.compute ≡ ComputeThread.waiting)
      (idle : bit_set d.reg_status status_idle ≡ true) (n_fits : n < 2 ^ 32) (a_fits : a < 2 ^ 64)
      (b_fits : b < 2 ^ 64) (c_fits : c < 2 ^ 64) where
    program-requested : program behind d n a b c ≡ requested programmed
    unfolding mmio_write32
    program-requested =
        rw
          (
            write_size behind d n n_fits,
            write_a behind (record d { reg_dim_n = n }) a a_fits,
            write_b behind (record d { reg_dim_n = n; reg_matrix_a_ptr = a }) b b_fits,
            write_c behind (record d { reg_dim_n = n; reg_matrix_a_ptr = a; reg_matrix_b_ptr = b })
                c c_fits,
          )
          (write_start behind
            (record d {
              reg_dim_n = n;
              reg_matrix_a_ptr = a;
              reg_matrix_b_ptr = b;
              reg_matrix_c_ptr = c;
              reg_int_enable = 1;
              controller = notify_update d.controller;
            })
            waits idle)

-- The memory with the product of the matrices at `a` and `b` at `c`.
abbrev pub host_product : FloatOps → (n a b c : ℕ) → HostMemory → HostMemory
host_product float n a b c m =
    store m c (words_to_bytes (matrix_product float n (matrix_at m a n) (matrix_at m b n)))

module _ (float : FloatOps) (behind garbage : ℕ) (d : Device) (n a b c : ℕ) (m : HostMemory) where
  -- Once it is through, further steps change nothing.
  resume-finished :
      (k : ℕ) (x y : Device) (m' : HostMemory)
      → resume float b_transport (n + 4) x m ≡ (finish true y, m')
      → n + 4 ≤ k
      → resume float b_transport k x m ≡ (finish true y, m')
  resume-finished k x y m' e h =
      let split : k ≡ n + 4 + (k - (n + 4)) = omega arith in
      ap (λ t. resume float b_transport t x m) split
      ∙ resume_add float b_transport (n + 4) (k - (n + 4)) x m
      ∙ ap (λ r. resume float b_transport (k - (n + 4)) r.0 r.1) e
      ∙ resume_finished float b_transport (k - (n + 4)) true y m'

  module _ (es : List Event) (polls : IsPolling es) (enough : n + 4 ≤ compute_steps es) where
    -- The registers of an idle device written with a size from 1 to 256, pointers whose matrices lie
    -- inside the host memory, the interrupt enable and START, as `test_sequence` does: after at least
    -- n + 4 steps of the compute thread, with any reads of the registers and steps of the interrupt
    -- controller between them, the memory holds the product of the matrices at A and B at C and is
    -- otherwise as it was, STATUS reads IDLE and DONE, and the thread waits for the next request.
    pub program-product :
        d.compute ≡ ComputeThread.waiting
        → bit_set d.reg_status status_idle ≡ true
        → 0 < n
        → n ≤ 256
        → m.size < 2 ^ 64
        → a + 4 * (n * n) ≤ m.size
        → b + 4 * (n * n) ≤ m.size
        → c + 4 * (n * n) ≤ m.size
        → let r = run_events float b_transport es (program behind d n a b c) m in
          (r.1 ≡ host_product float n a b c m)
          × ((mmio_read32 behind r.0 0x04 garbage).value ≡ 5)
          × (r.0.compute ≡ ComputeThread.waiting)
    unfolding finish mmio_read32 update_interrupt
    program-product waits idle positive size memory fits_a fits_b fits_c =
        let done =
          resume-finished (compute_steps es) (requested (programmed behind d n a b c))
            (accepted (programmed behind d n a b c)) (host_product float n a b c m)
            (multiplication_completes float (programmed behind d n a b c) m positive size memory
              fits_a fits_b fits_c)
            enough in
        let (same_memory, same_core) =
          run_events-resume float b_transport es (requested (programmed behind d n a b c)) m
            polls in
        let ends = same_core ∙ ap (λ r. core r.0) done in
        rw
          (program-requested behind d n a b c waits idle (omega arith) (omega arith) (omega arith)
            (omega arith))
          (
            same_memory ∙ ap (λ r. r.1) done,
            ap (λ (x : Device). from_le (le_bytes 4 x.reg_status)) ends,
            ap (λ (x : Device). x.compute) ends,
          )
