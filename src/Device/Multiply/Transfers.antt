-- ===== src/Device/Multiply/Transfers.antt =====
-- The DMA transactions of the device, in every history.
use pcie_systemc_linux.Prelude.{
  ℕ, ◌*◌, ◌≤◌, ◌≡◌, ◌≢◌, refl, ap, ◌∙◌, sym, inl, inr, true, false, ◌||◌, ◌==◌, ltb, List, [], ◌∷◌,
  Bool-cases, if_both, length, length-replicate, arith,
}
use pcie_systemc_linux.Prelude.Bytes.{words_to_bytes, length-words_to_bytes}
use pcie_systemc_linux.Tlm.{Payload, ignore, Transport}
use pcie_systemc_linux.Device.State.{
  Device, Progress, ComputeThread, waiting, woken, running, reading_a, reading_b, row_done,
  writing_c,
}
use pcie_systemc_linux.Device.Compute.{
  FloatOps, Suspended, byte_count, compute_thread, accept_request, resume_thread, resume_multiply,
  perform_matrix_multiply, read_matrix_a, read_matrix_b, write_matrix_c, row_step, dma_read,
  dma_write,
}
use pcie_systemc_linux.Device.Multiply.Product.{elements_lem, square-le}
use pcie_systemc_linux.Device.Sound.{IsSized, IsSize}
use pcie_systemc_linux.Device.History.{Reachable, Reachable-IsSound}

-- A DMA target that notes each transaction as it comes, and passes it on.
abbrev pub noted : {M : Type 0} → Transport M → Transport (M × List Payload)
noted target (m, log) trans delay =
    let r = target m trans delay in
    record { state = (r.state, trans ∷ log); trans = r.trans; delay = r.delay }

-- A read or a write of an `n × n` matrix of floats, at most 256 KB, whose buffer has all its bytes.
pub record IsTransfer (trans : Payload) : Type 0 where
  pub moves : trans.command ≢ ignore
  pub size : (n : ℕ) × IsSize n × (trans.length ≡ 4 * (n * n))
  pub bounded : trans.length ≤ 262144
  pub buffer : length trans.buffer ≡ trans.length
  pub width : trans.streaming_width ≡ trans.length

abbrev pub AllTransfers : List Payload → Type 0
AllTransfers [] = Unit {0}
AllTransfers (p ∷ ps) = IsTransfer p × AllTransfers ps

byte_count_lem : (n : ℕ) → n ≤ 256 → byte_count n ≡ 4 * (n * n)
byte_count_lem n h = omega (arith, elements_lem n h, square-le n h)

module _ (float : FloatOps) {M : Type 0} (target : Transport M) (m : M) (log : List Payload)
    (before : AllTransfers log) where
  abbrev Notes : Suspended (M × List Payload) → Type 0
  Notes x = AllTransfers x.memory.1

  read_transfer :
      (n addr : ℕ)
      → IsSize n
      → AllTransfers (dma_read (noted target) (m, log) addr (byte_count n)).state.1
  unfolding dma_read
  read_transfer n addr h = (
    record {
      moves = λ e. grind arith;
      size = (n, h, byte_count_lem n h.1);
      bounded = omega (arith, byte_count_lem n h.1, square-le n h.1);
      buffer = length-replicate (byte_count n) 0;
      width = refl;
    },
    before,
  )

  write_transfer :
      (n addr : ℕ) (matrix_c : List ℕ)
      → IsSize n
      → length matrix_c ≡ n * n
      → AllTransfers
          (dma_write (noted target) (m, log) addr (words_to_bytes matrix_c) (byte_count n)).state.1
  unfolding dma_write
  write_transfer n addr matrix_c h c = (
    record {
      moves = λ e. grind arith;
      size = (n, h, byte_count_lem n h.1);
      bounded = omega (arith, byte_count_lem n h.1, square-le n h.1);
      buffer = length-words_to_bytes matrix_c ∙ ap (λ t. 4 * t) c ∙ sym (byte_count_lem n h.1);
      width = refl;
    },
    before,
  )

  row_step-Notes :
      (n i : ℕ) (matrix_a matrix_b matrix_c : List ℕ) (d : Device)
      → IsSize n
      → length matrix_c ≡ n * n
      → Notes (row_step float (noted target) n i matrix_a matrix_b matrix_c d (m, log))
  unfolding row_step write_matrix_c
  row_step-Notes n i matrix_a matrix_b matrix_c d h c =
      if_both Notes (ltb i n) _ _ before (write_transfer n d.reg_matrix_c_ptr matrix_c h c)

  resume_multiply-Notes :
      (p : Progress) (d : Device)
      → IsSized (running p)
      → Notes (resume_multiply float (noted target) p d (m, log))
  unfolding resume_multiply read_matrix_b
  resume_multiply-Notes (reading_a n matrix_a true) d h = read_transfer n d.reg_matrix_b_ptr h.0
  resume_multiply-Notes (reading_a n matrix_a false) d h = before
  resume_multiply-Notes (reading_b n matrix_a matrix_b true) d (size, a, b) =
      row_step-Notes n 0 matrix_a matrix_b _ d size (length-replicate _ _ ∙ elements_lem n size.1)
  resume_multiply-Notes (reading_b n matrix_a matrix_b false) d h = before
  resume_multiply-Notes (row_done n rows matrix_a matrix_b matrix_c) d (size, r, a, b, c) =
      row_step-Notes n rows matrix_a matrix_b matrix_c d size c
  resume_multiply-Notes (writing_c n success) d h = before

  accept_request-Notes : (d : Device) → Notes (accept_request float (noted target) d (m, log))
  unfolding accept_request perform_matrix_multiply read_matrix_a
  accept_request-Notes d =
      if_both Notes d.computation_requested _ _
        (elim (Bool-cases (d.reg_dim_n == 0 || ltb 256 d.reg_dim_n)) [
          | inl bad ↦ rw bad before
          | inr good ↦
              let size : IsSize d.reg_dim_n = ground arith in
              rw good (read_transfer d.reg_dim_n d.reg_matrix_a_ptr size)
        ])
        before

  resume_thread-Notes :
      (t : ComputeThread) (d : Device)
      → IsSized t
      → Notes (resume_thread float (noted target) t d (m, log))
  unfolding resume_thread
  resume_thread-Notes waiting d h = before
  resume_thread-Notes woken d h = accept_request-Notes d
  resume_thread-Notes (running p) d h = resume_multiply-Notes p d h

-- In every history, and whatever is behind the DMA socket: each transaction that the compute
-- thread starts is a read or a write of four bytes for each cell of a square matrix of size 1 to
-- 256, so at most 256 KB, its buffer has exactly the bytes that it announces, and its streaming
-- width is its length.
pub Reachable-AllTransfers :
    (float : FloatOps) (d : Device)
    → Reachable float d
    → {M : Type 0} (target : Transport M) (m : M) (log : List Payload) → AllTransfers log
    → AllTransfers (compute_thread float (noted target) d (m, log)).memory.1
unfolding compute_thread
Reachable-AllTransfers float d r target m log h =
    resume_thread-Notes float target m log h d.compute d (Reachable-IsSound float d r).sized
