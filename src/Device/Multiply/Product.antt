-- ===== src/Device/Multiply/Product.antt =====
-- The loops of `perform_matrix_multiply` against the definition of a matrix product.
use native.Mathlib.Nat.{mod-eq_of_lt}
use native.Mathlib.Numerals.{add-one}
use native.Mathlib.Decide.{ℕ_discrete}
use pcie_systemc_linux.Prelude.{
  ℕ, zero, suc, ◌+◌, ◌*◌, ◌≤◌, ◌<◌, ◌≡◌, refl, ap, ◌∙◌, List, get_or, replicate, length, length-set,
  length-replicate, get_or-set_self, get_or-set_ne, arith,
}
use pcie_systemc_linux.Device.Compute.{FloatOps, elements, index, dot_loop, row_loop}

-- No index of an `n × n` matrix wraps, and the size fits.
module _ (n : ℕ) (size : n ≤ 256) where
  pub square-le : n * n ≤ 65536
  square-le = grind arith

  pub cell-lt : (i k : ℕ) → i < n → k < n → i * n + k < n * n
  cell-lt i k hi hk = grind arith

  pub index_lem : (i k : ℕ) → i < n → k < n → index n i k ≡ i * n + k
  index_lem i k hi hk = mod-eq_of_lt (omega (arith, cell-lt i k hi hk, square-le))

  pub elements_lem : elements n ≡ n * n
  elements_lem = mod-eq_of_lt (omega (arith, square-le))

module _ (float : FloatOps) (n : ℕ) (matrix_a matrix_b : List ℕ) where
  -- The sum of the first `k` products of row `i` and column `j`, from the left.
  abbrev pub dot : ℕ → ℕ → ℕ → ℕ
  dot i j zero = 0
  dot i j (suc k) =
      float.add (dot i j k)
        (float.mul (get_or matrix_a (i * n + k) 0) (get_or matrix_b (k * n + j) 0))

  module _ (size : n ≤ 256) (i : ℕ) (hi : i < n) where
    dot_loop-dot :
        (j : ℕ)
        → j < n
        → (rounds k : ℕ) → k + rounds ≡ n
        → dot_loop float rounds n i j matrix_a matrix_b k (dot i j k) ≡ dot i j n
    unfolding dot_loop
    dot_loop-dot j hj zero k e = ap (dot i j) (omega arith)
    dot_loop-dot j hj (suc rounds) k e =
        rw (index_lem n size i k hi (omega arith), index_lem n size k j (omega arith) hj, add-one k)
          (dot_loop-dot j hj rounds (suc k) (omega arith))

    -- The `j` loop changes no cell before its first.
    row_loop-before :
        (rounds j p : ℕ) (matrix_c : List ℕ)
        → j + rounds ≡ n
        → p < i * n + j
        → get_or (row_loop float rounds n i matrix_a matrix_b j matrix_c) p 0 ≡ get_or matrix_c p 0
    unfolding row_loop
    row_loop-before zero j p matrix_c e h = refl
    row_loop-before (suc rounds) j p matrix_c e h =
        row_loop-before rounds (j + 1) p _ (omega arith) (omega arith)
        ∙ get_or-set_ne matrix_c (index n i j) p _ 0
            (omega (arith, index_lem n size i j hi (omega arith)))

    pub length-row_loop :
        (rounds j : ℕ) (matrix_c : List ℕ)
        → length (row_loop float rounds n i matrix_a matrix_b j matrix_c) ≡ length matrix_c
    unfolding row_loop
    length-row_loop zero j matrix_c = refl
    length-row_loop (suc rounds) j matrix_c =
        length-row_loop rounds (j + 1) _ ∙ length-set matrix_c _ _

    -- It fills in the rest of the row.
    row_loop-dot :
        (rounds j j' : ℕ) (matrix_c : List ℕ)
        → j + rounds ≡ n
        → length matrix_c ≡ n * n
        → j ≤ j'
        → j' < n
        → get_or (row_loop float rounds n i matrix_a matrix_b j matrix_c) (i * n + j') 0
          ≡ dot i j' n
    unfolding row_loop
    row_loop-dot zero j j' matrix_c e l h k = absurd (omega arith)
    row_loop-dot (suc rounds) j j' matrix_c e l h k = elim (ℕ_discrete j j') [
      | no ne ↦
          row_loop-dot rounds (j + 1) j' _ (omega arith) (length-set matrix_c _ _ ∙ l) (omega arith)
            k
      | yes same ↦
          rw
            (
              ← same,
              row_loop-before rounds (j + 1) (i * n + j) _ (omega arith) (omega arith),
              index_lem n size i j hi (omega arith),
            )
            (get_or-set_self matrix_c (i * n + j) _ 0
                (omega (arith, cell-lt n size i j hi (omega arith)))
              ∙ dot_loop-dot j (omega arith) n 0 (omega arith))
    ]

  -- The `i` loop, `rounds` rows from row `i` on, with nothing in between.
  unfoldable pub rows_from : ℕ → ℕ → List ℕ → List ℕ
  rows_from zero i matrix_c = matrix_c
  rows_from (suc rounds) i matrix_c =
      rows_from rounds (i + 1) (row_loop float n n i matrix_a matrix_b 0 matrix_c)

  unfoldable pub matrix_product : List ℕ
  unfolding rows_from
  matrix_product = rows_from n 0 (replicate (elements n) 0)

  module _ (size : n ≤ 256) where
    pub length-rows_from :
        (rounds i : ℕ) (matrix_c : List ℕ)
        → i + rounds ≡ n
        → length (rows_from rounds i matrix_c) ≡ length matrix_c
    unfolding rows_from
    length-rows_from zero i matrix_c e = refl
    length-rows_from (suc rounds) i matrix_c e =
        length-rows_from rounds (i + 1) _ (omega arith)
        ∙ length-row_loop size i (omega arith) n 0 matrix_c

    rows_from-before :
        (rounds i p : ℕ) (matrix_c : List ℕ)
        → i + rounds ≡ n
        → p < i * n
        → get_or (rows_from rounds i matrix_c) p 0 ≡ get_or matrix_c p 0
    unfolding rows_from
    rows_from-before zero i p matrix_c e h = refl
    rows_from-before (suc rounds) i p matrix_c e h =
        rows_from-before rounds (i + 1) p _ (omega arith) (omega arith)
        ∙ row_loop-before size i (omega arith) n 0 p matrix_c (omega arith) (omega arith)

    pub rows_from-dot :
        (rounds i i' j : ℕ) (matrix_c : List ℕ)
        → i + rounds ≡ n
        → length matrix_c ≡ n * n
        → i ≤ i'
        → i' < n
        → j < n
        → get_or (rows_from rounds i matrix_c) (i' * n + j) 0 ≡ dot i' j n
    unfolding rows_from
    rows_from-dot zero i i' j matrix_c e l h k hj = absurd (omega arith)
    rows_from-dot (suc rounds) i i' j matrix_c e l h k hj = elim (ℕ_discrete i i') [
      | no ne ↦
          rows_from-dot rounds (i + 1) i' j _ (omega arith)
            (length-row_loop size i (omega arith) n 0 matrix_c ∙ l) (omega arith) k hj
      | yes same ↦ rw (← same) (
          rows_from-before rounds (i + 1) (i * n + j) _ (omega arith) (omega arith)
          ∙ row_loop-dot size i (omega arith) n 0 j matrix_c (omega arith) l (omega arith) hj)
    ]

    pub length-matrix_product : length matrix_product ≡ n * n
    unfolding matrix_product
    length-matrix_product =
        length-rows_from n 0 _ (omega arith) ∙ length-replicate (elements n) 0 ∙ elements_lem n size

    -- The loops of `perform_matrix_multiply` compute the matrix product: matrix C has `n * n`
    -- cells, and the cell of row `i` and column `j` is the sum of the products of row `i` of A
    -- and column `j` of B, added from the left, starting at 0, for every size up to 256 and any
    -- arithmetic.
    pub matrix_product-dot :
        (i j : ℕ)
        → i < n
        → j < n
        → (length matrix_product ≡ n * n) × (get_or matrix_product (i * n + j) 0 ≡ dot i j n)
    unfolding matrix_product
    matrix_product-dot i j hi hj = (
      length-rows_from n 0 _ (omega arith) ∙ start,
      rows_from-dot n 0 i j _ (omega arith) start (omega arith) hi hj,
    )
      where
        start : length {A = ℕ} (replicate (elements n) 0) ≡ n * n
        start = length-replicate (elements n) 0 ∙ elements_lem n size
