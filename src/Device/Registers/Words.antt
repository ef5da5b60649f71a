-- ===== src/Device/Registers/Words.antt =====
-- The words of BAR0 that software can write and read back, as independent cells.
use pcie_systemc_linux.Prelude.{
  ℕ, ◌+◌, ◌/◌, ◌%◌, ◌^◌, ◌<◌, ◌≡◌, refl, if◌then◌else◌, arith, ◌==◌, ◌∙◌, ap,
}
use pcie_systemc_linux.Prelude.Bytes.{from_le-le_bytes4}
use pcie_systemc_linux.Device.State.{
  Device, update_interrupt, reg_dim_n_offset, reg_matrix_a_ptr_offset, reg_matrix_b_ptr_offset,
  reg_matrix_c_ptr_offset, reg_int_enable_offset,
}
use pcie_systemc_linux.Device.Mmio.{write_register, handle_mmio_write, bar0_b_transport}
use pcie_systemc_linux.Device.Registers.Bounds.{IsBounded, write_register-IsBounded}
use pcie_systemc_linux.Device.Registers.Pointers.{write_low_lem, write_high_lem}
use pcie_systemc_linux.Testbench.Mmio.{mmio_read32, mmio_write32}

-- `REG_DIM_N`, the two words of each pointer, and `REG_INT_ENABLE`.
pub data Word : Type 0 where
  dim_n a_low a_high b_low b_high c_low c_high int_enable : Word

abbrev pub offset : Word → ℕ
offset dim_n = reg_dim_n_offset
offset a_low = reg_matrix_a_ptr_offset
offset a_high = reg_matrix_a_ptr_offset + 4
offset b_low = reg_matrix_b_ptr_offset
offset b_high = reg_matrix_b_ptr_offset + 4
offset c_low = reg_matrix_c_ptr_offset
offset c_high = reg_matrix_c_ptr_offset + 4
offset int_enable = reg_int_enable_offset

abbrev pub word : Device → Word → ℕ
word d dim_n = d.reg_dim_n
word d a_low = d.reg_matrix_a_ptr % 2 ^ 32
word d a_high = d.reg_matrix_a_ptr / 2 ^ 32
word d b_low = d.reg_matrix_b_ptr % 2 ^ 32
word d b_high = d.reg_matrix_b_ptr / 2 ^ 32
word d c_low = d.reg_matrix_c_ptr % 2 ^ 32
word d c_high = d.reg_matrix_c_ptr / 2 ^ 32
word d int_enable = d.reg_int_enable

word-write_register :
    (d : Device) (a b : Word) (v w : ℕ)
    → IsBounded d
    → v < 2 ^ 32
    → word (write_register d (offset a) 4 v w) b ≡ (if offset a == offset b then v else word d b)
unfolding write_register update_interrupt
word-write_register d dim_n dim_n v w i h = refl
word-write_register d dim_n _ v w i h = refl
word-write_register d a_low a_low v w i h =
    omega (arith, write_low_lem d.reg_matrix_a_ptr v w i.a_ptr h)
word-write_register d a_low a_high v w i h =
    omega (arith, write_low_lem d.reg_matrix_a_ptr v w i.a_ptr h)
word-write_register d a_low _ v w i h = refl
word-write_register d a_high a_low v w i h =
    omega (arith, write_high_lem d.reg_matrix_a_ptr v i.a_ptr h)
word-write_register d a_high a_high v w i h =
    omega (arith, write_high_lem d.reg_matrix_a_ptr v i.a_ptr h)
word-write_register d a_high _ v w i h = refl
word-write_register d b_low b_low v w i h =
    omega (arith, write_low_lem d.reg_matrix_b_ptr v w i.b_ptr h)
word-write_register d b_low b_high v w i h =
    omega (arith, write_low_lem d.reg_matrix_b_ptr v w i.b_ptr h)
word-write_register d b_low _ v w i h = refl
word-write_register d b_high b_low v w i h =
    omega (arith, write_high_lem d.reg_matrix_b_ptr v i.b_ptr h)
word-write_register d b_high b_high v w i h =
    omega (arith, write_high_lem d.reg_matrix_b_ptr v i.b_ptr h)
word-write_register d b_high _ v w i h = refl
word-write_register d c_low c_low v w i h =
    omega (arith, write_low_lem d.reg_matrix_c_ptr v w i.c_ptr h)
word-write_register d c_low c_high v w i h =
    omega (arith, write_low_lem d.reg_matrix_c_ptr v w i.c_ptr h)
word-write_register d c_low _ v w i h = refl
word-write_register d c_high c_low v w i h =
    omega (arith, write_high_lem d.reg_matrix_c_ptr v i.c_ptr h)
word-write_register d c_high c_high v w i h =
    omega (arith, write_high_lem d.reg_matrix_c_ptr v i.c_ptr h)
word-write_register d c_high _ v w i h = refl
word-write_register d int_enable dim_n v w i h = refl
word-write_register d int_enable _ v w i h = refl

-- A four-byte read of a word gives it, whatever lies in the caller's variable and on the stack.
read_word :
    (behind garbage : ℕ) (d : Device) (b : Word)
    → IsBounded d
    → (mmio_read32 behind d (offset b) garbage).value ≡ word d b
unfolding mmio_read32
read_word behind garbage d dim_n i = from_le-le_bytes4 d.reg_dim_n i.size
read_word behind garbage d int_enable i = from_le-le_bytes4 d.reg_int_enable i.enabled
read_word behind garbage d a_low i = from_le-le_bytes4 (d.reg_matrix_a_ptr % 2 ^ 32) (omega arith)
read_word behind garbage d a_high i =
    from_le-le_bytes4 (d.reg_matrix_a_ptr / 2 ^ 32 % 2 ^ 32) (omega arith) ∙ omega (arith, i.a_ptr)
read_word behind garbage d b_low i = from_le-le_bytes4 (d.reg_matrix_b_ptr % 2 ^ 32) (omega arith)
read_word behind garbage d b_high i =
    from_le-le_bytes4 (d.reg_matrix_b_ptr / 2 ^ 32 % 2 ^ 32) (omega arith) ∙ omega (arith, i.b_ptr)
read_word behind garbage d c_low i = from_le-le_bytes4 (d.reg_matrix_c_ptr % 2 ^ 32) (omega arith)
read_word behind garbage d c_high i =
    from_le-le_bytes4 (d.reg_matrix_c_ptr / 2 ^ 32 % 2 ^ 32) (omega arith) ∙ omega (arith, i.c_ptr)

-- A four-byte write access is the `switch` at the word that was written.
pub write_access :
    (behind : ℕ) (d : Device) (addr v : ℕ)
    → v < 2 ^ 32
    → (mmio_write32 behind d addr v).device ≡ write_register d addr 4 v 0
unfolding mmio_write32 bar0_b_transport handle_mmio_write
write_access behind d addr v h = ap (λ t. write_register d addr 4 t 0) (from_le-le_bytes4 v h)

-- The eight words that software can write behave as eight independent cells: a four-byte read after
-- a four-byte write gives the value written at the same word, and what the word held before at any
-- other, for every device whose registers are within their types.
pub mmio_read32-mmio_write32 :
    (behind garbage : ℕ) (d : Device) (a b : Word) (v : ℕ)
    → IsBounded d
    → v < 2 ^ 32
    → (mmio_read32 behind (mmio_write32 behind d (offset a) v).device (offset b) garbage).value
      ≡ (if offset a == offset b then v else (mmio_read32 behind d (offset b) garbage).value)
mmio_read32-mmio_write32 behind garbage d a b v i h =
    rw (write_access behind d (offset a) v h, read_word behind garbage d b i)
      (read_word behind garbage (write_register d (offset a) 4 v 0) b
          (write_register-IsBounded d (offset a) 4 v 0 i h (omega arith))
        ∙ word-write_register d a b v 0 i h)
