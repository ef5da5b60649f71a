-- ===== src/Device/Registers/Halves.antt =====
-- Writing a pointer at once and in two halves.
use pcie_systemc_linux.Prelude.{ℕ, ◌+◌, ◌/◌, ◌%◌, ◌^◌, ◌*◌, ◌<◌, ◌≡◌, refl, sym, ap, ◌∙◌, arith}
use pcie_systemc_linux.Prelude.Bytes.{from_le-le_bytes8}
use pcie_systemc_linux.Device.State.{
  Device, reg_matrix_a_ptr_offset, reg_matrix_b_ptr_offset, reg_matrix_c_ptr_offset,
}
use pcie_systemc_linux.Device.Mmio.{write_register, write_low, handle_mmio_write, bar0_b_transport}
use pcie_systemc_linux.Device.Registers.Pointers.{write_low_lem, write_high_lem}
use pcie_systemc_linux.Device.Registers.Words.{write_access}
use pcie_systemc_linux.Testbench.Mmio.{mmio_write32, mmio_write64}

-- `REG_MATRIX_A_PTR`, `REG_MATRIX_B_PTR` and `REG_MATRIX_C_PTR`.
pub data Pointer : Type 0 where
  matrix_a matrix_b matrix_c : Pointer

abbrev pub pointer_offset : Pointer → ℕ
pointer_offset matrix_a = reg_matrix_a_ptr_offset
pointer_offset matrix_b = reg_matrix_b_ptr_offset
pointer_offset matrix_c = reg_matrix_c_ptr_offset

abbrev pointed : Device → Pointer → ℕ
pointed d matrix_a = d.reg_matrix_a_ptr
pointed d matrix_b = d.reg_matrix_b_ptr
pointed d matrix_c = d.reg_matrix_c_ptr

abbrev pub point : Device → Pointer → ℕ → Device
point d matrix_a v = record d { reg_matrix_a_ptr = v }
point d matrix_b v = record d { reg_matrix_b_ptr = v }
point d matrix_c v = record d { reg_matrix_c_ptr = v }

pub write_whole :
    (behind : ℕ) (d : Device) (p : Pointer) (v : ℕ)
    → v < 2 ^ 64
    → (mmio_write64 behind d (pointer_offset p) v).device ≡ point d p v
unfolding mmio_write64 bar0_b_transport handle_mmio_write write_register write_low
write_whole behind d matrix_a v h = ap (point d matrix_a) (from_le-le_bytes8 v h)
write_whole behind d matrix_b v h = ap (point d matrix_b) (from_le-le_bytes8 v h)
write_whole behind d matrix_c v h = ap (point d matrix_c) (from_le-le_bytes8 v h)

write_low_half :
    (behind : ℕ) (d : Device) (p : Pointer) (v : ℕ)
    → v < 2 ^ 32
    → pointed d p < 2 ^ 64
    → (mmio_write32 behind d (pointer_offset p) v).device
      ≡ point d p (pointed d p / 2 ^ 32 * 2 ^ 32 + v)
unfolding write_register
write_low_half behind d matrix_a v h k =
    write_access behind d _ v h ∙ ap (point d matrix_a) (write_low_lem _ v 0 k h)
write_low_half behind d matrix_b v h k =
    write_access behind d _ v h ∙ ap (point d matrix_b) (write_low_lem _ v 0 k h)
write_low_half behind d matrix_c v h k =
    write_access behind d _ v h ∙ ap (point d matrix_c) (write_low_lem _ v 0 k h)

write_high_half :
    (behind : ℕ) (d : Device) (p : Pointer) (v : ℕ)
    → v < 2 ^ 32
    → pointed d p < 2 ^ 64
    → (mmio_write32 behind d (pointer_offset p + 4) v).device
      ≡ point d p (v * 2 ^ 32 + pointed d p % 2 ^ 32)
unfolding write_register
write_high_half behind d matrix_a v h k =
    write_access behind d _ v h ∙ ap (point d matrix_a) (write_high_lem _ v k h)
write_high_half behind d matrix_b v h k =
    write_access behind d _ v h ∙ ap (point d matrix_b) (write_high_lem _ v k h)
write_high_half behind d matrix_c v h k =
    write_access behind d _ v h ∙ ap (point d matrix_c) (write_high_lem _ v k h)

point-point : (d : Device) (p : Pointer) (v w : ℕ) → point (point d p v) p w ≡ point d p w
point-point d matrix_a v w = refl
point-point d matrix_b v w = refl
point-point d matrix_c v w = refl

pointed-point : (d : Device) (p : Pointer) (v : ℕ) → pointed (point d p v) p ≡ v
pointed-point d matrix_a v = refl
pointed-point d matrix_b v = refl
pointed-point d matrix_c v = refl

module _ (behind : ℕ) (d : Device) (p : Pointer) (v : ℕ) where
  abbrev pub low_then_high : Device
  low_then_high =
      (mmio_write32 behind (mmio_write32 behind d (pointer_offset p) (v % 2 ^ 32)).device
        (pointer_offset p + 4) (v / 2 ^ 32)).device

  abbrev pub high_then_low : Device
  high_then_low =
      (mmio_write32 behind (mmio_write32 behind d (pointer_offset p + 4) (v / 2 ^ 32)).device
        (pointer_offset p) (v % 2 ^ 32)).device

module _ (behind : ℕ) (d : Device) (p : Pointer) (v : ℕ) (bound : v < 2 ^ 64)
    (within : pointed d p < 2 ^ 64) where
  low_then_high_lem : low_then_high behind d p v ≡ point d p v
  unfolding mmio_write32
  low_then_high_lem = rw (write_low_half behind d p (v % 2 ^ 32) (omega arith) within) (
      write_high_half behind (point d p low) p (v / 2 ^ 32) (omega arith)
        (omega (arith, pointed-point d p low))
      ∙ point-point d p low _
      ∙ ap (point d p) (omega (arith, pointed-point d p low)))
    where
      low : ℕ
      low = pointed d p / 2 ^ 32 * 2 ^ 32 + v % 2 ^ 32

  high_then_low_lem : high_then_low behind d p v ≡ point d p v
  unfolding mmio_write32
  high_then_low_lem = rw (write_high_half behind d p (v / 2 ^ 32) (omega arith) within) (
      write_low_half behind (point d p high) p (v % 2 ^ 32) (omega arith)
        (omega (arith, pointed-point d p high))
      ∙ point-point d p high _
      ∙ ap (point d p) (omega (arith, pointed-point d p high)))
    where
      high : ℕ
      high = v / 2 ^ 32 * 2 ^ 32 + pointed d p % 2 ^ 32

  -- Writing a pointer register with one eight-byte access, or its two words with four-byte accesses
  -- in either order, leaves the device in the same state, if the pointer and what the register held
  -- are within 64 bits.
  pub mmio_write64-mmio_write32 :
      ((mmio_write64 behind d (pointer_offset p) v).device ≡ low_then_high behind d p v)
      × ((mmio_write64 behind d (pointer_offset p) v).device ≡ high_then_low behind d p v)
  mmio_write64-mmio_write32 = (
    write_whole behind d p v bound ∙ sym low_then_high_lem,
    write_whole behind d p v bound ∙ sym high_then_low_lem,
  )
