-- ===== src/Device/Compute.antt =====
-- `dma_read`, `dma_write`, `perform_matrix_multiply` and `compute_thread`, cut where the thread
-- suspends. The DMA socket's target and the arithmetic of `float` are parameters.
use pcie_systemc_linux.Prelude.{
  ℕ, zero, suc, ◌+◌, ◌*◌, ◌%◌, ◌^◌, Bool, true, false, ◌||◌, List, bit_and, bit_or, ◌==◌, ltb,
  if◌then◌else◌, get_or, set, replicate,
}
use pcie_systemc_linux.Prelude.Bytes.{words_to_bytes, bytes_to_words}
use pcie_systemc_linux.Prelude.Bits.{bit_not}
use pcie_systemc_linux.Tlm.{Command, Outcome, Transport, request, is_response_ok}
use pcie_systemc_linux.Device.State.{
  Device, Progress, ComputeThread, reading_a, reading_b, row_done, writing_c, running,
  update_interrupt, status_idle, status_busy, status_done, status_error, int_done,
}

-- `float` addition and multiplication on 32-bit patterns; 0.0f is the pattern 0.
pub record FloatOps : Type 0 where
  pub add : ℕ → ℕ → ℕ
  pub mul : ℕ → ℕ → ℕ

-- `n * n` and `n * n * sizeof(float)`, as an `unsigned int`.
abbrev pub elements : ℕ → ℕ
elements n = n * n % 2 ^ 32

abbrev pub byte_count : ℕ → ℕ
byte_count n = elements n * 4 % 2 ^ 32

-- `i * n + k` in `uint32_t`
abbrev pub index : ℕ → ℕ → ℕ → ℕ
index n i k = (i * n + k) % 2 ^ 32

-- The state of the DMA target and the device when the thread suspends, and how long it sleeps.
pub record Suspended (M : Type 0) : Type 0 where
  pub memory : M
  pub device : Device
  pub sleep : ℕ

-- The end of a round of `compute_thread`, back at `wait(start_event)`.
unfoldable pub finish : Bool → Device → Device
unfolding update_interrupt
finish true d = update_interrupt (record d {
  reg_status = bit_or status_idle status_done;
  reg_int_status = bit_or d.reg_int_status int_done;
  compute = ComputeThread.waiting;
})
finish false d =
    update_interrupt
      (record d { reg_status = bit_or status_idle status_error; compute = ComputeThread.waiting })

module _ {M : Type 0} (transport : Transport M) where
  -- `dma_read` up to its `wait(delay)`: it is given the vector's storage, all zero.
  unfoldable pub dma_read : M → ℕ → ℕ → Outcome M
  dma_read m addr len = transport m (request Command.read addr (replicate len 0) len) 50

  -- `dma_write` up to its `wait(delay)`.
  unfoldable pub dma_write : M → ℕ → List ℕ → ℕ → Outcome M
  dma_write m addr bytes len = transport m (request Command.write addr bytes len) 50

module _ (float : FloatOps) where
  -- The `k` loop: `rounds` rounds from `k` on.
  unfoldable pub dot_loop : ℕ → ℕ → ℕ → ℕ → List ℕ → List ℕ → ℕ → ℕ → ℕ
  dot_loop zero n i j matrix_a matrix_b k sum = sum
  dot_loop (suc rounds) n i j matrix_a matrix_b k sum =
      dot_loop rounds n i j matrix_a matrix_b (k + 1) (
        float.add sum
          (float.mul (get_or matrix_a (index n i k) 0) (get_or matrix_b (index n k j) 0)))

  -- The `j` loop of row `i`: `rounds` rounds from `j` on.
  unfoldable pub row_loop : ℕ → ℕ → ℕ → List ℕ → List ℕ → ℕ → List ℕ → List ℕ
  unfolding dot_loop
  row_loop zero n i matrix_a matrix_b j matrix_c = matrix_c
  row_loop (suc rounds) n i matrix_a matrix_b j matrix_c =
      row_loop rounds n i matrix_a matrix_b (j + 1)
        (set matrix_c (index n i j) (dot_loop n n i j matrix_a matrix_b 0 0))

  module _ {M : Type 0} (transport : Transport M) where
    -- `finish`, with the thread back at its event.
    abbrev pub finished : Bool → Device → M → Suspended M
    finished success d m = record { memory = m; device = finish success d; sleep = 0 }

    -- The transfer of matrix A, after the test of `n`.
    unfoldable pub read_matrix_a : ℕ → Device → M → Suspended M
    unfolding dma_read
    read_matrix_a n d m =
        let r = dma_read transport m d.reg_matrix_a_ptr (byte_count n) in
        record {
          memory = r.state;
          device = record d {
            compute = running (
                reading_a n (bytes_to_words (elements n) r.trans.buffer)
                  (is_response_ok r.trans.response));
          };
          sleep = r.delay;
        }

    unfoldable pub read_matrix_b : ℕ → List ℕ → Device → M → Suspended M
    unfolding dma_read
    read_matrix_b n matrix_a d m =
        let r = dma_read transport m d.reg_matrix_b_ptr (byte_count n) in
        record {
          memory = r.state;
          device = record d {
            compute = running (
                reading_b n matrix_a (bytes_to_words (elements n) r.trans.buffer)
                  (is_response_ok r.trans.response));
          };
          sleep = r.delay;
        }

    unfoldable pub write_matrix_c : ℕ → List ℕ → Device → M → Suspended M
    unfolding dma_write
    write_matrix_c n matrix_c d m =
        let r = dma_write transport m d.reg_matrix_c_ptr (words_to_bytes matrix_c) (byte_count n) in
        record {
          memory = r.state;
          device = record d { compute = running (writing_c n (is_response_ok r.trans.response)) };
          sleep = r.delay;
        }

    -- One test of the `i` loop: a row and its `wait`, or the transfer of matrix C.
    unfoldable pub row_step : ℕ → ℕ → List ℕ → List ℕ → List ℕ → Device → M → Suspended M
    unfolding row_loop write_matrix_c
    row_step n i matrix_a matrix_b matrix_c d m =
        if ltb i n
        then record {
          memory = m;
          device = record d {
            compute = running (
                row_done n (i + 1) matrix_a matrix_b (row_loop n n i matrix_a matrix_b 0 matrix_c));
          };
          sleep = n * 2 % 2 ^ 32;
        }
        else write_matrix_c n matrix_c d m

    -- `perform_matrix_multiply` up to its first `wait`.
    unfoldable pub perform_matrix_multiply : Device → M → Suspended M
    unfolding read_matrix_a finish
    perform_matrix_multiply d m =
        if d.reg_dim_n == 0 || ltb 256 d.reg_dim_n
        then finished false d m
        else read_matrix_a d.reg_dim_n d m

    -- `perform_matrix_multiply` from one `wait` to the next, or to its return.
    unfoldable pub resume_multiply : Progress → Device → M → Suspended M
    unfolding read_matrix_b row_step finish
    resume_multiply (reading_a n matrix_a true) d m = read_matrix_b n matrix_a d m
    resume_multiply (reading_a n matrix_a false) d m = finished false d m
    resume_multiply (reading_b n matrix_a matrix_b true) d m =
        row_step n 0 matrix_a matrix_b (replicate (elements n) 0) d m
    resume_multiply (reading_b n matrix_a matrix_b false) d m = finished false d m
    resume_multiply (row_done n rows matrix_a matrix_b matrix_c) d m =
        row_step n rows matrix_a matrix_b matrix_c d m
    resume_multiply (writing_c n success) d m = finished success d m

    -- The test of the request after `wait(start_event)`, and the busy status.
    unfoldable pub accept_request : Device → M → Suspended M
    unfolding perform_matrix_multiply
    accept_request d m =
        if d.computation_requested
        then perform_matrix_multiply
            (record d {
              reg_status = bit_and status_busy (bit_not 32 status_idle);
              computation_requested = false;
            })
            m
        else record { memory = m; device = record d { compute = ComputeThread.waiting }; sleep = 0 }

    unfoldable pub resume_thread : ComputeThread → Device → M → Suspended M
    unfolding accept_request resume_multiply
    resume_thread ComputeThread.waiting d m = record { memory = m; device = d; sleep = 0 }
    resume_thread ComputeThread.woken d m = accept_request d m
    resume_thread (running p) d m = resume_multiply p d m

    -- `compute_thread` from where it stands to its next `wait`.
    unfoldable pub compute_thread : Device → M → Suspended M
    unfolding resume_thread
    compute_thread d m = resume_thread d.compute d m
