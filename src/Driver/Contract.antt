-- ===== src/Driver/Contract.antt =====
-- The endpoint that the driver is written for, as an interface: two operand windows, an opcode
-- and a result window. Its result is computed when the first result word is read, as the driver's
-- comment on `IOCTL_GET_RESULT` says.
use pcie_systemc_linux.Prelude.{ℕ, ◌+◌, ◌*◌, ◌/◌, ◌%◌, ◌^◌, ◌<◌, ◌≡◌, List, length, get_or, set}
use pcie_systemc_linux.Driver.Kernel.{Mmio}
use pcie_systemc_linux.Driver.Ioctl.{op1_offset, op2_offset, opcode_offset, result_offset}

-- Word `k` of the product of two 4x4 matrices of `uint32_t`.
abbrev pub product_word : List ℕ → List ℕ → ℕ → ℕ
product_word a b k =
    (get_or a (k / 4 * 4) 0 * get_or b (k % 4) 0
      + get_or a (k / 4 * 4 + 1) 0 * get_or b (4 + k % 4) 0
      + get_or a (k / 4 * 4 + 2) 0 * get_or b (8 + k % 4) 0
      + get_or a (k / 4 * 4 + 3) 0 * get_or b (12 + k % 4) 0)
    % 2 ^ 32

-- The operands and the opcode that the device holds.
pub record Operands : Type 0 where
  pub op1 : List ℕ
  pub op2 : List ℕ
  pub opcode : ℕ

-- The device behind an MMIO mapping at `mmio`. `IsFresh` says that the result window holds the
-- product of the operands.
pub record MatrixDevice {B : Type 0} (io : Mmio B) (mmio : ℕ) : Type 1 where
  pub operands : B → Operands
  pub IsFresh : B → Type 0
  pub length_op1 : (b : B) → length (operands b).op1 ≡ 16
  pub length_op2 : (b : B) → length (operands b).op2 ≡ 16
  pub write_op1 :
      (b : B) (v k : ℕ)
      → k < 16
      → v < 2 ^ 32
      → operands (io.iowrite32 b v (mmio + op1_offset + k * 4))
        ≡ record (operands b) { op1 = set (operands b).op1 k v }
  pub write_op2 :
      (b : B) (v k : ℕ)
      → k < 16
      → v < 2 ^ 32
      → operands (io.iowrite32 b v (mmio + op2_offset + k * 4))
        ≡ record (operands b) { op2 = set (operands b).op2 k v }
  pub write_opcode :
      (b : B) (v : ℕ)
      → v < 2 ^ 32
      → operands (io.iowrite32 b v (mmio + opcode_offset)) ≡ record (operands b) { opcode = v }
  pub read_first :
      (b : B)
      → (operands b).opcode ≡ 1
      → ((io.ioread32 b (mmio + result_offset + 0)).0
          ≡ product_word (operands b).op1 (operands b).op2 0)
        × (operands (io.ioread32 b (mmio + result_offset + 0)).1 ≡ operands b)
        × IsFresh (io.ioread32 b (mmio + result_offset + 0)).1
  pub read_next :
      (b : B) (k : ℕ)
      → IsFresh b
      → (operands b).opcode ≡ 1
      → 0 < k
      → k < 16
      → io.ioread32 b (mmio + result_offset + k * 4)
        ≡ (product_word (operands b).op1 (operands b).op2 k, b)
