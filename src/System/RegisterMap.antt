-- ===== src/System/RegisterMap.antt =====
-- The register map that `print_device_info` of custom-endpoint/pcie_system_top.h prints, against
-- the device.
use Prim.Native.String.{String}
use text.Mathlib.Text.{◌==◌}
use mathlib.Core.Path.{subst}
use pcie_systemc_linux.Prelude.{
  ℕ, ◌+◌, ◌-◌, ◌/◌, ◌%◌, ◌^◌, ◌<◌, ◌≡◌, refl, ap, sym, ◌∙◌, min, List, [], ◌∷◌, ◌&&◌, if◌then◌else◌,
  arith,
}
use pcie_systemc_linux.Prelude.Bits.{bit_at}
use pcie_systemc_linux.Prelude.Bytes.{from_le-le_bytes4}
use pcie_systemc_linux.Device.State.{
  Device, bit_set, ctrl_reset, reg_control_offset, reg_status_offset, reg_int_status_offset,
  reg_dim_n_offset, reg_int_enable_offset, update_interrupt, reset_device,
}
use pcie_systemc_linux.Device.Mmio.{write_register, write_control}
use pcie_systemc_linux.Device.Registers.Bounds.{IsBounded, write_register-IsBounded}
use pcie_systemc_linux.Device.Registers.Halves.{
  Pointer, matrix_a, matrix_b, matrix_c, pointer_offset, point, write_whole,
}
use pcie_systemc_linux.Device.Registers.Words.{
  dim_n, int_enable, write_access, mmio_read32-mmio_write32,
}
use pcie_systemc_linux.Device.Registers.Acknowledge.{mmio_write32-int_status}
use pcie_systemc_linux.Testbench.Mmio.{mmio_read32, mmio_write32, mmio_write64}

-- (R/W), (R), (R/W, 64-bit) and (R/W1C).
pub data Rights : Type 0 where
  read_write read_only read_write64 write_one_to_clear : Rights

-- A line of the map.
pub record Entry : Type 0 where
  pub address : ℕ
  pub name : String
  pub rights : Rights

abbrev pub print_device_info : List Entry
print_device_info =
    record { address = 0x0000; name = "CONTROL"; rights = read_write }
    ∷ record { address = 0x0004; name = "STATUS"; rights = read_only }
    ∷ record { address = 0x0008; name = "DIM_N"; rights = read_write }
    ∷ record { address = 0x0010; name = "MATRIX_A_PTR"; rights = read_write64 }
    ∷ record { address = 0x0018; name = "MATRIX_B_PTR"; rights = read_write64 }
    ∷ record { address = 0x0020; name = "MATRIX_C_PTR"; rights = read_write64 }
    ∷ record { address = 0x0028; name = "INT_STATUS"; rights = write_one_to_clear }
    ∷ record { address = 0x002C; name = "INT_ENABLE"; rights = read_write }
    ∷ []

-- The register of the device that has a name, as matrix_multiplier_pcie.h calls it after `reg_`.
abbrev pub named : String → Device → ℕ
named name d =
    if name == "CONTROL"
    then d.reg_control
    else if name == "STATUS"
    then d.reg_status
    else if name == "DIM_N"
    then d.reg_dim_n
    else if name == "MATRIX_A_PTR"
    then d.reg_matrix_a_ptr
    else if name == "MATRIX_B_PTR"
    then d.reg_matrix_b_ptr
    else if name == "MATRIX_C_PTR"
    then d.reg_matrix_c_ptr
    else if name == "INT_STATUS"
    then d.reg_int_status
    else if name == "INT_ENABLE"
    then d.reg_int_enable
    else 0

-- What a register that is written as (R/W) keeps of a word: all of it, but CONTROL nothing of a
-- word with RESET.
abbrev pub kept : String → ℕ → ℕ
kept name v = if name == "CONTROL" && bit_set v ctrl_reset then 0 else v

module _ (behind garbage : ℕ) (d : Device) where
  abbrev pub read_at : Device → ℕ → ℕ
  read_at x address = (mmio_read32 behind x address garbage).value

  -- What the rights of a register say of a write of the word `v`, or of the eight bytes of `w`, and
  -- of bit `k`.
  abbrev pub Permits : Rights → String → ℕ → (v w k : ℕ) → Type 0
  Permits read_write name address v w k =
      let x = (mmio_write32 behind d address v).device in
      (read_at x address ≡ kept name v) × (named name x ≡ kept name v)
  Permits read_only name address v w k =
      ((mmio_write32 behind d address v).device ≡ d) × (read_at d address ≡ named name d)
  Permits read_write64 name address v w k =
      let x = (mmio_write64 behind d address w).device in
      (named name x ≡ w) × (read_at x address ≡ w % 2 ^ 32) × (read_at x (address + 4) ≡ w / 2 ^ 32)
  Permits write_one_to_clear name address v w k =
      let x = (mmio_write32 behind d address v).device in
      (bit_at (named name x) k ≡ min (bit_at (named name d) k) (1 - bit_at v k))
      × (read_at x address ≡ named name x)

  abbrev pub AllPermit : List Entry → (v w k : ℕ) → Type 0
  AllPermit [] v w k = Unit {0}
  AllPermit (e ∷ es) v w k = Permits e.rights e.name e.address v w k × AllPermit es v w k

  module _ (v w k : ℕ) (bounded : IsBounded d) (word : v < 2 ^ 32) (long : w < 2 ^ 64)
      (bit : k < 32) where
    -- The device after the write of the word.
    written : (address : ℕ) → IsBounded (mmio_write32 behind d address v).device
    written address =
        subst IsBounded (sym (write_access behind d address v word))
          (write_register-IsBounded d address 4 v 0 bounded word (omega arith))

    control_kept : (write_control d v).reg_control ≡ kept "CONTROL" v
    unfolding write_control reset_device
    control_kept = ground arith

    control-Permits : Permits read_write "CONTROL" reg_control_offset v w k
    unfolding mmio_read32 write_register
    control-Permits =
        let stored =
          ap (λ (x : Device). x.reg_control) (write_access behind d reg_control_offset v word)
          ∙ control_kept in
        (from_le-le_bytes4 _ (written reg_control_offset).control ∙ stored, stored)

    status-Permits : Permits read_only "STATUS" reg_status_offset v w k
    unfolding mmio_read32 write_register
    status-Permits = (
      write_access behind d reg_status_offset v word,
      from_le-le_bytes4 d.reg_status bounded.status,
    )

    abbrev pointer_name : Pointer → String
    pointer_name matrix_a = "MATRIX_A_PTR"
    pointer_name matrix_b = "MATRIX_B_PTR"
    pointer_name matrix_c = "MATRIX_C_PTR"

    pointer-Permits : (p : Pointer) → Permits read_write64 (pointer_name p) (pointer_offset p) v w k
    unfolding mmio_read32
    pointer-Permits p =
        let e = write_whole behind d p w long in
        (
          ap (named (pointer_name p)) e ∙ whole p,
          ap (λ x. read_at x (pointer_offset p)) e ∙ low p,
          ap (λ x. read_at x (pointer_offset p + 4)) e ∙ high p,
        )
      where
        whole : (p : Pointer) → named (pointer_name p) (point d p w) ≡ w
        whole matrix_a = refl
        whole matrix_b = refl
        whole matrix_c = refl

        low : (p : Pointer) → read_at (point d p w) (pointer_offset p) ≡ w % 2 ^ 32
        low matrix_a = from_le-le_bytes4 (w % 2 ^ 32) (omega arith)
        low matrix_b = from_le-le_bytes4 (w % 2 ^ 32) (omega arith)
        low matrix_c = from_le-le_bytes4 (w % 2 ^ 32) (omega arith)

        high : (p : Pointer) → read_at (point d p w) (pointer_offset p + 4) ≡ w / 2 ^ 32
        high matrix_a = from_le-le_bytes4 (w / 2 ^ 32 % 2 ^ 32) (omega arith) ∙ omega arith
        high matrix_b = from_le-le_bytes4 (w / 2 ^ 32 % 2 ^ 32) (omega arith) ∙ omega arith
        high matrix_c = from_le-le_bytes4 (w / 2 ^ 32 % 2 ^ 32) (omega arith) ∙ omega arith

    int_status-Permits : Permits write_one_to_clear "INT_STATUS" reg_int_status_offset v w k
    unfolding mmio_read32
    int_status-Permits = (
      (mmio_write32-int_status behind d v k word bit).0,
      from_le-le_bytes4 _ (written reg_int_status_offset).pending,
    )

    dim_n-Permits : Permits read_write "DIM_N" reg_dim_n_offset v w k
    unfolding write_register
    dim_n-Permits = (
      mmio_read32-mmio_write32 behind garbage d dim_n dim_n v bounded word,
      ap (λ (x : Device). x.reg_dim_n) (write_access behind d reg_dim_n_offset v word),
    )

    int_enable-Permits : Permits read_write "INT_ENABLE" reg_int_enable_offset v w k
    unfolding write_register update_interrupt
    int_enable-Permits = (
      mmio_read32-mmio_write32 behind garbage d int_enable int_enable v bounded word,
      ap (λ (x : Device). x.reg_int_enable) (write_access behind d reg_int_enable_offset v word),
    )

    -- The register map that `print_device_info` prints is the device's, for every device whose
    -- registers are within their types. Each line names the register that lies at its address, and
    -- says how software can write it: what is given as (R/W) holds, and reads back as, the word
    -- written, but CONTROL as 0 when the word has RESET; what is given with 64 bits holds the eight
    -- bytes written, and reads back as their two words; a write of STATUS, given as (R), changes
    -- nothing; and a write of INT_STATUS, given as (R/W1C), clears the bits that are set in the
    -- word and keeps the others.
    pub print_device_info-AllPermit : AllPermit print_device_info v w k
    print_device_info-AllPermit = (
      control-Permits,
      (
        status-Permits,
        (
          dim_n-Permits,
          (
            pointer-Permits matrix_a,
            (
              pointer-Permits matrix_b,
              (pointer-Permits matrix_c, (int_status-Permits, (int_enable-Permits, tt))),
            ),
          ),
        ),
      ),
    )
