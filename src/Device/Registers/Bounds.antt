-- ===== src/Device/Registers/Bounds.antt =====
-- Every register stays within its C type.
use pcie_systemc_linux.Prelude.{ℕ, ◌^◌, ◌<◌, ◌==◌, inl, inr, Bool-cases, arith}
use pcie_systemc_linux.Prelude.Bits.{bit_not, bit_and-le_left}
use pcie_systemc_linux.Device.State.{Device, update_interrupt}
use pcie_systemc_linux.Device.Mmio.{write_register, write_control, write_low, write_high}
use pcie_systemc_linux.Device.Registers.Pointers.{write_low_lem, write_high_lem}

-- The registers hold what their C types can hold.
pub record IsBounded (d : Device) : Type 0 where
  pub control : d.reg_control < 2 ^ 32
  pub status : d.reg_status < 2 ^ 32
  pub size : d.reg_dim_n < 2 ^ 32
  pub a_ptr : d.reg_matrix_a_ptr < 2 ^ 64
  pub b_ptr : d.reg_matrix_b_ptr < 2 ^ 64
  pub c_ptr : d.reg_matrix_c_ptr < 2 ^ 64
  pub pending : d.reg_int_status < 2 ^ 32
  pub enabled : d.reg_int_enable < 2 ^ 32

write_control-IsBounded :
    (d : Device) (v : ℕ) → IsBounded d → v < 2 ^ 32 → IsBounded (write_control d v)
unfolding write_control
write_control-IsBounded d v i h = ground arith

write_low-lt :
    (p len v v64 : ℕ) → p < 2 ^ 64 → v < 2 ^ 32 → v64 < 2 ^ 64 → write_low p len v v64 < 2 ^ 64
unfolding write_low
write_low-lt p len v v64 hp hv h64 = elim (Bool-cases (len == 8)) [
  | inl e ↦ rw e h64
  | inr e ↦ rw e (omega (arith, write_low_lem p v v64 hp hv))
]

write_high-lt : (p v : ℕ) → p < 2 ^ 64 → v < 2 ^ 32 → write_high p v < 2 ^ 64
write_high-lt p v hp hv = omega (arith, write_high_lem p v hp hv)

-- Every write of BAR0 keeps the registers within their types.
pub write_register-IsBounded :
    (d : Device) (addr len v v64 : ℕ)
    → IsBounded d
    → v < 2 ^ 32
    → v64 < 2 ^ 64
    → IsBounded (write_register d addr len v v64)
unfolding write_register update_interrupt
write_register-IsBounded d addr len v v64 i h k = ground (
  arith,
  write_control-IsBounded d v i h,
  write_low-lt d.reg_matrix_a_ptr len v v64 i.a_ptr h k,
  write_low-lt d.reg_matrix_b_ptr len v v64 i.b_ptr h k,
  write_low-lt d.reg_matrix_c_ptr len v v64 i.c_ptr h k,
  write_high-lt d.reg_matrix_a_ptr v i.a_ptr h,
  write_high-lt d.reg_matrix_b_ptr v i.b_ptr h,
  write_high-lt d.reg_matrix_c_ptr v i.c_ptr h,
  bit_and-le_left d.reg_int_status (bit_not 32 v),
)
