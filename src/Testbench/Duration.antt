-- ===== src/Testbench/Duration.antt =====
-- How long a multiplication takes against the host memory, in ns of simulated time.
use pcie_systemc_linux.Prelude.{
  ℕ, zero, suc, ◌+◌, ◌-◌, ◌*◌, ◌%◌, ◌^◌, ◌≤◌, ◌<◌, ◌≡◌, refl, ap, ap₂, ◌∙◌, ◌||◌, Bool, true, false,
  ◌==◌, ltb, List, replicate, arith,
}
use mathlib.Core.Bool.{false≢true}
use mathlib.Core.Path.{subst}
use pcie_systemc_linux.Prelude.Bytes.{bytes_to_words, words_to_bytes}
use pcie_systemc_linux.Tlm.{Payload, Command, ignore, request, is_response_ok}
use pcie_systemc_linux.Device.State.{Device, running, reading_a, reading_b, row_done}
use pcie_systemc_linux.Device.Compute.{
  FloatOps, byte_count, elements, compute_thread, row_step, dma_read, dma_write, row_loop,
  perform_matrix_multiply,
}
use pcie_systemc_linux.Device.Multiply.Product.{square-le}
use pcie_systemc_linux.Device.Multiply.Run.{requested, accepted}
use pcie_systemc_linux.Testbench.Memory.{HostMemory, serve, b_transport}

rows_lem : (k n c : ℕ) → suc k ≡ n → c + (k * c + 70) ≡ n * c + 70
rows_lem k n c e = subst (λ t. c + (k * c + 70) ≡ t * c + 70) e (grind arith)

total_lem : (n : ℕ) → n ≤ 256 → 70 + (70 + (n * (n * 2 % 2 ^ 32) + 70)) ≡ 210 + 2 * (n * n)
total_lem n h = let e : n * 2 % 2 ^ 32 ≡ n * 2 = omega arith in rw e (grind arith)

serve_size : (c : Command) (m : HostMemory) (trans : Payload) → (serve c m trans).0.size ≡ m.size
unfolding serve
serve_size Command.read m trans = refl
serve_size Command.write m trans = refl
serve_size ignore m trans = refl

-- What a transfer inside the memory answers, and when.
transfer-time :
    (m : HostMemory) (trans : Payload)
    → trans.address + trans.length ≤ m.size
    → m.size < 2 ^ 64
    → ((b_transport m trans 50).delay ≡ 70)
      × (is_response_ok (b_transport m trans 50).trans.response ≡ true)
      × ((b_transport m trans 50).state.size ≡ m.size)
unfolding b_transport
transfer-time m trans h s =
    let fits : ltb m.size ((trans.address + trans.length) % 2 ^ 64) ≡ false = ground arith in
    rw fits (refl, refl, serve_size trans.command m trans)

module _ (float : FloatOps) where
  -- The sleeps of the compute thread in its next `rounds` steps.
  unfoldable pub resume_time : ℕ → Device → HostMemory → ℕ
  resume_time zero d m = 0
  resume_time (suc rounds) d m =
      let r = compute_thread float b_transport d m in r.sleep + resume_time rounds r.device r.memory

  module _ (n : ℕ) (matrix_a matrix_b : List ℕ) where
    time_rows :
        (rounds i : ℕ) (d : Device) (m : HostMemory) (matrix_c : List ℕ)
        → i + rounds ≡ n
        → d.reg_matrix_c_ptr + byte_count n ≤ m.size
        → m.size < 2 ^ 64
        → resume_time
            (suc (suc rounds))
            (record d { compute = running (row_done n i matrix_a matrix_b matrix_c) })
            m
          ≡ rounds * (n * 2 % 2 ^ 32) + 70
    unfolding resume_time compute_thread dma_write
    time_rows zero i d m matrix_c e h s =
        let last : ltb i n ≡ false = ground arith in
        rw (last, row_step)
          (omega (
            arith,
            (transfer-time m
                (request Command.write d.reg_matrix_c_ptr (words_to_bytes matrix_c) (byte_count n))
                h s).0,
          ))
    time_rows (suc rounds) i d m matrix_c e h s =
        let more : ltb i n ≡ true = ground arith in
        let rest =
          time_rows rounds (i + 1) d m (row_loop float n n i matrix_a matrix_b 0 matrix_c)
            (omega arith) h s in
        rw (more, row_step) (ap (λ t. n * 2 % 2 ^ 32 + t) rest ∙ omega arith)

    time_reading_b :
        (k : ℕ) (success : Bool) (d : Device) (m : HostMemory)
        → success ≡ true
        → suc k ≡ n
        → d.reg_matrix_c_ptr + byte_count n ≤ m.size
        → m.size < 2 ^ 64
        → resume_time
            (suc (suc (suc k)))
            (record d { compute = running (reading_b n matrix_a matrix_b success) })
            m
          ≡ n * (n * 2 % 2 ^ 32) + 70
    unfolding resume_time compute_thread
    time_reading_b k true d m ok e h s =
        let more : ltb 0 n ≡ true = ground arith in
        let rest =
          time_rows k 1 d m (row_loop float n n 0 matrix_a matrix_b 0 (replicate (elements n) 0))
            (omega arith) h s in
        rw (more, row_step) (ap (λ t. n * 2 % 2 ^ 32 + t) rest ∙ sum)
      where
        sum : n * 2 % 2 ^ 32 + (k * (n * 2 % 2 ^ 32) + 70) ≡ n * (n * 2 % 2 ^ 32) + 70
        sum = rows_lem k n (n * 2 % 2 ^ 32) e
    time_reading_b k false d m ok e h s = absurd (false≢true ok)

  time_reading_a :
      (n : ℕ) (matrix_a : List ℕ) (k : ℕ) (success : Bool) (d : Device) (m : HostMemory)
      → success ≡ true
      → suc k ≡ n
      → d.reg_matrix_b_ptr + byte_count n ≤ m.size
      → d.reg_matrix_c_ptr + byte_count n ≤ m.size
      → m.size < 2 ^ 64
      → resume_time
          (suc (suc (suc (suc k))))
          (record d { compute = running (reading_a n matrix_a success) })
          m
        ≡ 70 + (n * (n * 2 % 2 ^ 32) + 70)
  unfolding resume_time compute_thread dma_read
  time_reading_a n matrix_a k true d m ok e hb hc s =
      let trans =
        request Command.read d.reg_matrix_b_ptr (replicate (byte_count n) 0) (byte_count n) in
      let (delay, response, size) = transfer-time m trans hb s in
      let r = b_transport m trans 50 in
      ap₂ ◌+◌ delay (
        time_reading_b n matrix_a (bytes_to_words (elements n) r.trans.buffer) k
          (is_response_ok r.trans.response) d r.state response e (omega arith) (omega arith))
  time_reading_a n matrix_a k false d m ok e hb hc s = absurd (false≢true ok)

  module _ (d : Device) (m : HostMemory) (positive : 0 < d.reg_dim_n) (size : d.reg_dim_n ≤ 256)
      (memory : m.size < 2 ^ 64)
      (a_fits : d.reg_matrix_a_ptr + 4 * (d.reg_dim_n * d.reg_dim_n) ≤ m.size)
      (b_fits : d.reg_matrix_b_ptr + 4 * (d.reg_dim_n * d.reg_dim_n) ≤ m.size)
      (c_fits : d.reg_matrix_c_ptr + 4 * (d.reg_dim_n * d.reg_dim_n) ≤ m.size) where
    bytes_lem : byte_count d.reg_dim_n ≡ 4 * (d.reg_dim_n * d.reg_dim_n)
    bytes_lem = omega (arith, square-le d.reg_dim_n size)

    time_requested :
        (k : ℕ)
        → suc k ≡ d.reg_dim_n
        → resume_time (suc (suc (suc (suc (suc k))))) (requested d) m
          ≡ 70 + (70 + (d.reg_dim_n * (d.reg_dim_n * 2 % 2 ^ 32) + 70))
    unfolding resume_time compute_thread dma_read
    time_requested k e =
        let fits : (d.reg_dim_n == 0 || ltb 256 d.reg_dim_n) ≡ false = ground arith in
        let n = d.reg_dim_n in
        let trans =
          request Command.read d.reg_matrix_a_ptr (replicate (byte_count n) 0) (byte_count n) in
        let (delay, response, size) = transfer-time m trans (omega (arith, bytes_lem)) memory in
        let r = b_transport m trans 50 in
        rw (fits, perform_matrix_multiply)
          (ap₂ ◌+◌ delay (
            time_reading_a n (bytes_to_words (elements n) r.trans.buffer) k
              (is_response_ok r.trans.response) (accepted d) r.state response e
              (omega (arith, bytes_lem)) (omega (arith, bytes_lem)) (omega arith)))

    -- A multiplication of size n from 1 to 256 whose matrices lie inside the host memory takes
    -- 210 ns for its three transfers and 2 n ns for each of its n rows, from the request to the
    -- wait for the next.
    pub multiplication_time :
        resume_time (d.reg_dim_n + 4) (requested d) m ≡ 210 + 2 * (d.reg_dim_n * d.reg_dim_n)
    multiplication_time =
        subst (λ t. resume_time t (requested d) m ≡ 210 + 2 * (d.reg_dim_n * d.reg_dim_n))
          (omega arith)
          (time_requested (d.reg_dim_n - 1) (omega arith) ∙ total_lem d.reg_dim_n size)
