-- ===== src/Testbench/Simulation/Result.antt =====
-- What the test bench reports at its end.
use mathlib.Core.Path.{subst}
use mathlib.Core.Bool.{false≢true}
use mathlib.Core.List.{append-nil}
use pcie_systemc_linux.Prelude.{
  ℕ, ◌%◌, leb, Bool, true, false, ◌+◌, ◌^◌, ◌≤◌, ◌<◌, ◌≡◌, refl, sym, ap, ap₂, ◌∙◌, inl, List,
  length, drop_all, arith,
}
use pcie_systemc_linux.Prelude.Bytes.{
  AllWords, words_to_bytes, bytes_to_words, length-words_to_bytes, bytes_to_words-words_to_bytes,
}
use pcie_systemc_linux.Device.Compute.{FloatOps}
use pcie_systemc_linux.Device.Multiply.Product.{matrix_product, length-matrix_product}
use pcie_systemc_linux.Testbench.Memory.{HostMemory, host_memory, store, write_data, read_data}
use pcie_systemc_linux.Testbench.Ranges.{load-store, load-store_disjoint}
use pcie_systemc_linux.Testbench.Multiply.{matrix_at}
use pcie_systemc_linux.Testbench.Simulation.Sequence.{
  Bench, Place, bench, memory_at_start, Simulated, started, tested, computed, controlled, stopping,
}
use pcie_systemc_linux.Testbench.Simulation.Course.{stored, final}
use pcie_systemc_linux.Testbench.Simulation.Phases.{
  Phase, Early, place_of, at_n, at_a, at_b, at_c, at_enable, at_start, at_status, before, polls,
  received, known, stopped, tested-Phase,
}
use pcie_systemc_linux.Testbench.Simulation.Conclusion.{computed-Phase, controlled-Phase}
use pcie_systemc_linux.Device.State.{unstarted}
use pcie_systemc_linux.Testbench.Simulation.Report.{print_result, report, print_result-report}

-- Reading all of what was stored.
read_data-store :
    (m : HostMemory) (addr n : ℕ) (bytes buffer : List ℕ)
    → n ≡ length bytes
    → length buffer ≡ n
    → addr + n ≤ m.size
    → m.size < 2 ^ 64
    → read_data (store m addr bytes) addr buffer n ≡ bytes
unfolding read_data
read_data-store m addr n bytes buffer count room fits small =
    rw (inside, load-store m addr n bytes count, drop_all buffer (length bytes) enough, append-nil)
      refl
  where
    inside : leb ((addr + n) % 2 ^ 64) m.size ≡ true
    inside = let e : (addr + n) % 2 ^ 64 ≡ addr + n = omega arith in ground arith

    enough : length buffer ≤ length bytes
    enough = omega arith

abbrev is_stopping : Place → Bool
is_stopping stopping = true
is_stopping _ = false

is_stopping-place_of : (p : Early) → is_stopping (place_of p) ≡ false
is_stopping-place_of at_status = refl
is_stopping-place_of at_n = refl
is_stopping-place_of at_a = refl
is_stopping-place_of at_b = refl
is_stopping-place_of at_c = refl
is_stopping-place_of at_enable = refl
is_stopping-place_of at_start = refl

module _ (float : FloatOps) (matrix_a matrix_b : List ℕ) (count_a : length matrix_a ≡ 16)
    (count_b : length matrix_b ≡ 16) where
  length_a : length (words_to_bytes matrix_a) ≡ 64
  length_a = omega (arith, length-words_to_bytes matrix_a)

  length_b : length (words_to_bytes matrix_b) ≡ 64
  length_b = omega (arith, length-words_to_bytes matrix_b)

  pub memory_lem : memory_at_start matrix_a matrix_b ≡ stored float matrix_a matrix_b
  unfolding write_data
  memory_lem = rw (length_a, length_b) refl

  Simulated-Phase :
      (s : Bench) → Simulated float matrix_a matrix_b s → Phase float matrix_a matrix_b s
  Simulated-Phase _ started =
      subst (λ m. Phase float matrix_a matrix_b (record (bench matrix_a matrix_b) { memory = m }))
        (sym memory_lem) (before at_status unstarted 0)
  Simulated-Phase _ (tested {s} behind garbage r) =
      tested-Phase float matrix_a matrix_b behind garbage s (Simulated-Phase s r)
  Simulated-Phase _ (computed {s} r) =
      computed-Phase float matrix_a matrix_b s (Simulated-Phase s r)
  Simulated-Phase _ (controlled {s} r) =
      controlled-Phase float matrix_a matrix_b s (Simulated-Phase s r)

  module _ (words_a : AllWords matrix_a) (words_b : AllWords matrix_b) where
    a_in_memory : matrix_at (stored float matrix_a matrix_b) 0x1000 4 ≡ matrix_a
    a_in_memory =
        ap (bytes_to_words 16) (
          load-store_disjoint (store host_memory 0x1000 (words_to_bytes matrix_a)) 0x2000 0x1000 64
            (words_to_bytes matrix_b) (inl (omega arith))
          ∙ load-store host_memory 0x1000 64 (words_to_bytes matrix_a) (sym length_a))
        ∙ bytes_to_words-words_to_bytes matrix_a 16 words_a (sym count_a)

    b_in_memory : matrix_at (stored float matrix_a matrix_b) 0x2000 4 ≡ matrix_b
    b_in_memory =
        ap (bytes_to_words 16) (
          load-store (store host_memory 0x1000 (words_to_bytes matrix_a)) 0x2000 64
            (words_to_bytes matrix_b) (sym length_b))
        ∙ bytes_to_words-words_to_bytes matrix_b 16 words_b (sym count_b)

    -- What the memory holds at the end.
    abbrev product_bytes : List ℕ
    product_bytes = words_to_bytes (matrix_product float 4 matrix_a matrix_b)

    length-product_bytes : length product_bytes ≡ 64
    length-product_bytes = omega (
      arith,
      length-words_to_bytes (matrix_product float 4 matrix_a matrix_b),
      length-matrix_product float 4 matrix_a matrix_b (omega arith),
    )

    read_final :
        (buffer : List ℕ)
        → length buffer ≡ 64
        → read_data (final float matrix_a matrix_b) 0x3000 buffer 64 ≡ product_bytes
    read_final buffer e =
        ap (λ t. read_data (store (stored float matrix_a matrix_b) 0x3000 t) 0x3000 buffer 64)
          (ap₂ (λ a b. words_to_bytes (matrix_product float 4 a b)) a_in_memory b_in_memory)
        ∙ read_data-store (stored float matrix_a matrix_b) 0x3000 64 product_bytes buffer
            (sym length-product_bytes) e (omega arith) (omega arith)

    ending :
        (s : Bench)
        → Phase float matrix_a matrix_b s
        → s.place ≡ stopping
        → (s.memory ≡ final float matrix_a matrix_b) × (s.status ≡ 5) × (s.int_status ≡ 1)
    ending _ (before p c status) e =
        absurd (false≢true (sym (is_stopping-place_of p) ∙ ap is_stopping e))
    ending _ (polls j c i status h) e = absurd (false≢true (ap is_stopping e))
    ending _ (received c i) e = absurd (false≢true (ap is_stopping e))
    ending _ (known c i) e = absurd (false≢true (ap is_stopping e))
    ending _ (stopped c i) e = (refl, refl, refl)

    -- Whenever `test_sequence` stops the simulation, in whatever order the test thread, the compute
    -- thread and the interrupt controller took their steps, it has read the status IDLE and DONE
    -- and the interrupt status DONE, and `sc_main` reads the product of its two matrices, of
    -- sixteen 32-bit words each, from the memory, whatever its buffer held, and prints it in four
    -- rows of four.
    pub Simulated-product :
        (s : Bench) (buffer : List ℕ)
        → Simulated float matrix_a matrix_b s
        → s.place ≡ stopping
        → length buffer ≡ 64
        → (read_data s.memory 0x3000 buffer 64
            ≡ words_to_bytes (matrix_product float 4 matrix_a matrix_b))
          × (print_result s.memory buffer ≡ report (matrix_product float 4 matrix_a matrix_b))
          × (s.status ≡ 5)
          × (s.int_status ≡ 1)
    Simulated-product s buffer r e l =
        let (memory, status, int_status) = ending s (Simulated-Phase s r) e in
        let given = ap (λ m. read_data m 0x3000 buffer 64) memory ∙ read_final buffer l in
        (
          given,
          print_result-report s.memory buffer (matrix_product float 4 matrix_a matrix_b)
              (length-matrix_product float 4 matrix_a matrix_b (omega arith)) given,
          status,
          int_status,
        )
