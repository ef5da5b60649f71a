-- ===== src/Device/Multiply/Run.antt =====
-- A whole round of `compute_thread`: the thread is resumed until it waits for its event again, and
-- nothing else touches the device or the DMA target's memory meanwhile.
use pcie_systemc_linux.Prelude.{
  ℕ, zero, suc, ◌+◌, ◌||◌, ◌-◌, Bool-cases, inl, inr, ◌==◌, ltb, not, if◌then◌else◌, ◌∙◌, replicate,
  ◌≡◌, refl, ap, Bool, true, false, List, arith, bit_and,
}
use mathlib.Core.Path.{subst}
use pcie_systemc_linux.Prelude.Bits.{bit_not}
use pcie_systemc_linux.Prelude.Bytes.{words_to_bytes, bytes_to_words}
use pcie_systemc_linux.Tlm.{Transport, is_response_ok}
use pcie_systemc_linux.Device.State.{
  Device, ComputeThread, running, reading_a, reading_b, row_done, status_busy, status_idle,
}
use pcie_systemc_linux.Device.Compute.{
  FloatOps, byte_count, elements, compute_thread, row_step, finish, dma_read, dma_write, row_loop,
  perform_matrix_multiply,
}
use pcie_systemc_linux.Device.Multiply.Product.{rows_from, matrix_product}

-- The request accepted: what the registers hold while the thread is busy.
abbrev pub accepted : Device → Device
accepted d = record d {
  reg_status = bit_and status_busy (bit_not 32 status_idle);
  computation_requested = false;
}

-- A request made and its event notified.
abbrev pub requested : Device → Device
requested d = record d { computation_requested = true; compute = ComputeThread.woken }

-- The end of a round, with what it made of the memory.
abbrev pub left_by : {M : Type 0} → Bool × M → Device → Device × M
left_by r d = (finish r.0 d, r.1)

module _ (float : FloatOps) {M : Type 0} (transport : Transport M) where
  -- The thread resumed `rounds` times.
  unfoldable pub resume : ℕ → Device → M → Device × M
  resume zero d m = (d, m)
  resume (suc rounds) d m =
      let r = compute_thread float transport d m in resume rounds r.device r.memory

  -- `perform_matrix_multiply` with its waits left out: whether it succeeds, and the DMA target's
  -- memory after it.
  unfoldable pub multiply_at_once : Device → M → Bool × M
  multiply_at_once d m =
      let n = d.reg_dim_n in
      let ra = dma_read transport m d.reg_matrix_a_ptr (byte_count n) in
      let rb = dma_read transport ra.state d.reg_matrix_b_ptr (byte_count n) in
      let product =
        matrix_product float n (bytes_to_words (elements n) ra.trans.buffer)
          (bytes_to_words (elements n) rb.trans.buffer) in
      let rc =
        dma_write transport rb.state d.reg_matrix_c_ptr (words_to_bytes product) (byte_count n) in
      if n == 0 || ltb 256 n
      then (false, m)
      else if not (is_response_ok ra.trans.response)
      then (false, ra.state)
      else if not (is_response_ok rb.trans.response)
      then (false, rb.state)
      else (is_response_ok rc.trans.response, rc.state)

  -- A thread that waits for its event stays there.
  resume_waiting :
      (k : ℕ) (d : Device) (m : M)
      → resume k (record d { compute = ComputeThread.waiting }) m
        ≡ (record d { compute = ComputeThread.waiting }, m)
  unfolding resume compute_thread
  resume_waiting zero d m = refl
  resume_waiting (suc k) d m = resume_waiting k d m

  pub resume_finished :
      (k : ℕ) (success : Bool) (d : Device) (m : M)
      → resume k (finish success d) m ≡ (finish success d, m)
  unfolding finish
  resume_finished k true d m = resume_waiting k (finish true d) m
  resume_finished k false d m = resume_waiting k (finish false d) m

  pub resume_add :
      (a b : ℕ) (d : Device) (m : M)
      → resume (a + b) d m ≡ resume b (resume a d m).0 (resume a d m).1
  unfolding resume
  resume_add zero b d m = let e : 0 + b ≡ b = omega arith in ap (λ t. resume t d m) e
  resume_add (suc a) b d m =
      let e : suc a + b ≡ suc (a + b) = omega arith in ap (λ t. resume t d m) e ∙ resume_add a b _ _

  -- Where the thread stood does not show in what it leaves.
  finish_from :
      (success : Bool) (d : Device) (t : ComputeThread)
      → finish success (record d { compute = t }) ≡ finish success d
  unfolding finish
  finish_from true d t = refl
  finish_from false d t = refl

  module _ (n : ℕ) (matrix_a matrix_b : List ℕ) where
    resume_rows :
        (rounds i : ℕ) (d : Device) (m : M) (matrix_c : List ℕ)
        → i + rounds ≡ n
        → let rc =
            dma_write transport m d.reg_matrix_c_ptr
              (words_to_bytes (rows_from float n matrix_a matrix_b rounds i matrix_c))
              (byte_count n) in
          resume
            (suc (suc rounds))
            (record d { compute = running (row_done n i matrix_a matrix_b matrix_c) })
            m
          ≡ (finish (is_response_ok rc.trans.response) d, rc.state)
    unfolding resume compute_thread rows_from
    resume_rows zero i d m matrix_c e =
        let last : ltb i n ≡ false = ground arith in
        rw (last, row_step)
          (ap
            (λ t. (
              t,
              (dma_write transport m d.reg_matrix_c_ptr (words_to_bytes matrix_c)
                  (byte_count n)).state,
            ))
            (finish_from _ d _))
    resume_rows (suc rounds) i d m matrix_c e =
        let more : ltb i n ≡ true = ground arith in
        rw (more, row_step)
          (resume_rows rounds (i + 1) d m (row_loop float n n i matrix_a matrix_b 0 matrix_c)
            (omega arith))

    -- What the transfer of a product leaves, from the memory that the reads left.
    abbrev after_write : Device → M → List ℕ → Device × M
    after_write d m matrix_c =
        let rc =
          dma_write transport m d.reg_matrix_c_ptr (words_to_bytes matrix_c) (byte_count n) in
        (finish (is_response_ok rc.trans.response) d, rc.state)

    resume_reading_b :
        (k : ℕ) (success : Bool) (d : Device) (m : M)
        → suc k ≡ n
        → resume
            (suc (suc (suc k)))
            (record d { compute = running (reading_b n matrix_a matrix_b success) })
            m
          ≡ (if success
              then after_write d m (matrix_product float n matrix_a matrix_b)
              else (finish false d, m))
    unfolding resume compute_thread rows_from matrix_product
    resume_reading_b k true d m e =
        let more : ltb 0 n ≡ true = ground arith in
        rw (more, row_step)
          (resume_rows k 1 d m (row_loop float n n 0 matrix_a matrix_b 0 (replicate (elements n) 0))
              (omega arith)
            ∙ ap (λ t. after_write d m (rows_from float n matrix_a matrix_b t 0 zeros)) e)
      where
        zeros : List ℕ
        zeros = replicate (elements n) 0
    resume_reading_b k false d m e = resume_finished k false d m

  resume_reading_a :
      (n : ℕ) (matrix_a : List ℕ) (k : ℕ) (success : Bool) (d : Device) (m : M)
      → suc k ≡ n
      → let rb = dma_read transport m d.reg_matrix_b_ptr (byte_count n) in
        let matrix_b = bytes_to_words (elements n) rb.trans.buffer in
        resume
          (suc (suc (suc (suc k))))
          (record d { compute = running (reading_a n matrix_a success) })
          m
        ≡ (if success
            then (if is_response_ok rb.trans.response
                then after_write n matrix_a matrix_b d rb.state
                    (matrix_product float n matrix_a matrix_b)
                else (finish false d, rb.state))
            else (finish false d, m))
  unfolding resume compute_thread
  resume_reading_a n matrix_a k true d m e =
      let rb = dma_read transport m d.reg_matrix_b_ptr (byte_count n) in
      resume_reading_b n matrix_a (bytes_to_words (elements n) rb.trans.buffer) k
        (is_response_ok rb.trans.response) d rb.state e
  resume_reading_a n matrix_a k false d m e = resume_finished (suc k) false d m

  -- The two ways to write the three transfers' errors.
  settle :
      (a b c : Bool) (d : Device) (ma mb mc : M)
      → (if a
          then (if b then left_by (c, mc) d else left_by (false, mb) d)
          else left_by (false, ma) d)
        ≡ left_by (if not a then (false, ma) else if not b then (false, mb) else (c, mc)) d
  settle true true c d ma mb mc = refl
  settle true false c d ma mb mc = refl
  settle false b c d ma mb mc = refl

  module _ (d : Device) (m : M) where
    resume-accepted :
        (k : ℕ)
        → suc k ≡ d.reg_dim_n
        → (d.reg_dim_n == 0 || ltb 256 d.reg_dim_n) ≡ false
        → resume (suc (suc (suc (suc (suc k))))) (requested d) m
          ≡ left_by (multiply_at_once d m) (accepted d)
    unfolding resume compute_thread multiply_at_once
    resume-accepted k e h =
        let ra = dma_read transport m d.reg_matrix_a_ptr (byte_count d.reg_dim_n) in
        rw (h, perform_matrix_multiply)
          (resume_reading_a d.reg_dim_n (bytes_to_words (elements d.reg_dim_n) ra.trans.buffer) k
              (is_response_ok ra.trans.response) (accepted d) ra.state e
            ∙ settle (is_response_ok ra.trans.response) _ _ (accepted d) ra.state _ _)

    resume_refused :
        (k : ℕ)
        → (d.reg_dim_n == 0 || ltb 256 d.reg_dim_n) ≡ true
        → resume (suc k) (requested d) m ≡ left_by (multiply_at_once d m) (accepted d)
    unfolding resume compute_thread multiply_at_once
    resume_refused k h = rw (h, perform_matrix_multiply) (resume_finished k false (accepted d) m)

    -- A requested multiplication, resumed without interference, ends with the thread back at its
    -- event and the registers and memory that `perform_matrix_multiply` with its waits left out
    -- gives, on every path: a bad size, a failed transfer of A, B or C, and success.
    pub resume-multiply_at_once :
        resume (d.reg_dim_n + 4) (requested d) m ≡ left_by (multiply_at_once d m) (accepted d)
    resume-multiply_at_once = elim (Bool-cases (d.reg_dim_n == 0 || ltb 256 d.reg_dim_n)) [
      | inl refused ↦ rw more (resume_refused (d.reg_dim_n + 3) refused)
      | inr fits ↦
          let e : suc (d.reg_dim_n - 1) ≡ d.reg_dim_n = ground arith in
          subst (λ t. resume t (requested d) m ≡ left_by (multiply_at_once d m) (accepted d))
            (omega arith) (resume-accepted (d.reg_dim_n - 1) e fits)
    ]
      where
        more : d.reg_dim_n + 4 ≡ suc (d.reg_dim_n + 3)
        more = omega arith
