-- ===== src/Testbench/Multiply.antt =====
-- The device against the host memory: a whole multiplication, and the transfers that fail.
use pcie_systemc_linux.Prelude.{
  ℕ, ◌+◌, ◌*◌, ◌^◌, ◌≤◌, ◌<◌, ◌≡◌, ap, sym, ◌∙◌, ◌||◌, ◌==◌, ltb, true, false, List, length,
  replicate, length-replicate, arith,
}
use pcie_systemc_linux.Prelude.Bytes.{words_to_bytes, bytes_to_words, length-words_to_bytes}
use pcie_systemc_linux.Device.State.{Device}
use pcie_systemc_linux.Device.Compute.{FloatOps, dma_read, dma_write, byte_count, finish}
use pcie_systemc_linux.Device.Multiply.Product.{
  matrix_product, elements_lem, square-le, length-matrix_product,
}
use pcie_systemc_linux.Device.Multiply.Run.{
  resume, requested, accepted, left_by, multiply_at_once, resume-multiply_at_once,
}
use pcie_systemc_linux.Testbench.Memory.{HostMemory, load, store, b_transport}
use pcie_systemc_linux.Testbench.Ranges.{b_transport-write, b_transport-read}

-- The matrix of `n * n` floats at an address of the host memory.
abbrev pub matrix_at : HostMemory → ℕ → ℕ → List ℕ
matrix_at m addr n = bytes_to_words (n * n) (load m addr (4 * (n * n)))

abbrev zeros : ℕ → List ℕ
zeros n = replicate n 0

module _ (float : FloatOps) (d : Device) (m : HostMemory) where
  abbrev product : List ℕ
  product =
      matrix_product float d.reg_dim_n (matrix_at m d.reg_matrix_a_ptr d.reg_dim_n)
        (matrix_at m d.reg_matrix_b_ptr d.reg_dim_n)

module _ (float : FloatOps) (d : Device) (m : HostMemory) (nonzero : 0 < d.reg_dim_n)
    (size : d.reg_dim_n ≤ 256) (memory : m.size < 2 ^ 64)
    (a_fits : d.reg_matrix_a_ptr + 4 * (d.reg_dim_n * d.reg_dim_n) ≤ m.size)
    (b_fits : d.reg_matrix_b_ptr + 4 * (d.reg_dim_n * d.reg_dim_n) ≤ m.size)
    (c_fits : d.reg_matrix_c_ptr + 4 * (d.reg_dim_n * d.reg_dim_n) ≤ m.size) where
  bytes_lem : byte_count d.reg_dim_n ≡ 4 * (d.reg_dim_n * d.reg_dim_n)
  bytes_lem = omega (arith, square-le d.reg_dim_n size)

  multiply-host :
      multiply_at_once float b_transport d m
      ≡ (true, store m d.reg_matrix_c_ptr (words_to_bytes (product float d m)))
  unfolding multiply_at_once dma_read dma_write
  multiply-host = rw (
    fits_test,
    bytes_lem,
    elements_lem d.reg_dim_n size,
    b_transport-read m d.reg_matrix_a_ptr _ 50 _ zeros_length a_fits memory,
    b_transport-read m d.reg_matrix_b_ptr _ 50 _ zeros_length b_fits memory,
    b_transport-write m d.reg_matrix_c_ptr _ 50 _ written_length c_fits memory,
  )
    where
      zeros_length :
          4 * (d.reg_dim_n * d.reg_dim_n) ≡ length (zeros (4 * (d.reg_dim_n * d.reg_dim_n)))
      zeros_length = sym (length-replicate _ _)

      written_length : 4 * (d.reg_dim_n * d.reg_dim_n) ≡ length (words_to_bytes (product float d m))
      written_length = omega (
        arith,
        length-words_to_bytes (product float d m),
        length-matrix_product float d.reg_dim_n (matrix_at m d.reg_matrix_a_ptr d.reg_dim_n)
            (matrix_at m d.reg_matrix_b_ptr d.reg_dim_n) size,
      )

      fits_test : (d.reg_dim_n == 0 || ltb 256 d.reg_dim_n) ≡ false
      fits_test = ground arith

  -- Started with a size from 1 to 256 and pointers whose matrices lie inside the host memory, the
  -- device ends idle and done with its interrupt pending, and the host memory holds the product of
  -- the matrices at A and B at C and is otherwise as it was, wherever the three lie.
  pub multiplication_completes :
      resume float b_transport (d.reg_dim_n + 4) (requested d) m
      ≡ (finish true (accepted d), store m d.reg_matrix_c_ptr (words_to_bytes (product float d m)))
  multiplication_completes =
      resume-multiply_at_once float b_transport d m ∙ ap (λ r. left_by r (accepted d)) multiply-host
