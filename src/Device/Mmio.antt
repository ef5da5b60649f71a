-- ===== src/Device/Mmio.antt =====
-- The BAR0 handler: `handle_mmio_read`, `handle_mmio_write` and `bar0_b_transport`.
use pcie_systemc_linux.Prelude.{
  ℕ, ◌+◌, ◌*◌, ◌/◌, ◌%◌, ◌^◌, true, not, ◌&&◌, List, ◌++◌, take, bit_and, bit_or, ◌==◌,
  if◌then◌else◌,
}
use pcie_systemc_linux.Prelude.Bytes.{le_bytes, from_le}
use pcie_systemc_linux.Prelude.Bits.{bit_not}
use pcie_systemc_linux.Tlm.{Payload, Command, Response, overwrite, Outcome}
use pcie_systemc_linux.Device.State.{
  Device, reset_device, update_interrupt, notify_start, bit_set, ctrl_start, ctrl_reset,
  status_idle, reg_control_offset, reg_status_offset, reg_dim_n_offset, reg_matrix_a_ptr_offset,
  reg_matrix_b_ptr_offset, reg_matrix_c_ptr_offset, reg_int_status_offset, reg_int_enable_offset,
}

-- `memcpy(data, &value, len)` from a `uint32_t` local: what lies behind the variable on the stack,
-- here the word `behind`, is copied too where `len` is 8.
unfoldable pub copy_value : List ℕ → ℕ → ℕ → ℕ → List ℕ
copy_value data_bytes value behind len =
    overwrite data_bytes (take len (le_bytes 4 value ++ le_bytes 4 behind))

-- `case REG_MATRIX_X_PTR`: eight bytes at once, or the low word.
unfoldable pub copy_pointer : List ℕ → ℕ → ℕ → ℕ → List ℕ
unfolding copy_value
copy_pointer data_bytes pointer behind len =
    if len == 8
    then overwrite data_bytes (le_bytes 8 pointer)
    else copy_value data_bytes (pointer % 2 ^ 32) behind len

-- `case REG_MATRIX_X_PTR + 4`: the value is `(uint32_t)(pointer >> 32)`.
abbrev pub high_word : ℕ → ℕ
high_word pointer = pointer / 2 ^ 32 % 2 ^ 32

-- The buffer after the read; no register changes.
unfoldable pub handle_mmio_read : Device → ℕ → List ℕ → ℕ → ℕ → List ℕ
unfolding copy_value copy_pointer
handle_mmio_read d addr data_bytes len behind =
    let value = λ (v : ℕ). copy_value data_bytes v behind len in
    let pointer = λ (p : ℕ). copy_pointer data_bytes p behind len in
    if addr == reg_control_offset
    then value d.reg_control
    else if addr == reg_status_offset
    then value d.reg_status
    else if addr == reg_dim_n_offset
    then value d.reg_dim_n
    else if addr == reg_matrix_a_ptr_offset
    then pointer d.reg_matrix_a_ptr
    else if addr == reg_matrix_a_ptr_offset + 4
    then value (high_word d.reg_matrix_a_ptr)
    else if addr == reg_matrix_b_ptr_offset
    then pointer d.reg_matrix_b_ptr
    else if addr == reg_matrix_b_ptr_offset + 4
    then value (high_word d.reg_matrix_b_ptr)
    else if addr == reg_matrix_c_ptr_offset
    then pointer d.reg_matrix_c_ptr
    else if addr == reg_matrix_c_ptr_offset + 4
    then value (high_word d.reg_matrix_c_ptr)
    else if addr == reg_int_status_offset
    then value d.reg_int_status
    else if addr == reg_int_enable_offset
    then value d.reg_int_enable
    else value 0xDEADBEEF

-- `case REG_CONTROL` of `handle_mmio_write`: reset comes before start.
unfoldable pub write_control : Device → ℕ → Device
unfolding reset_device
write_control d value =
    let stored = record d { reg_control = value } in
    let cleared = if bit_set value ctrl_reset then reset_device stored else stored in
    if bit_set value ctrl_start && bit_set cleared.reg_status status_idle
    then record cleared { computation_requested = true; compute = notify_start cleared.compute }
    else cleared

-- `case REG_MATRIX_X_PTR`: the whole pointer, or its low word under the mask.
unfoldable pub write_low : ℕ → ℕ → ℕ → ℕ → ℕ
write_low pointer len value value64 =
    if len == 8 then value64 else bit_or (bit_and pointer 0xFFFFFFFF00000000) value

-- `case REG_MATRIX_X_PTR + 4`: its high word.
unfoldable pub write_high : ℕ → ℕ → ℕ
write_high pointer value = bit_or (bit_and pointer 0xFFFFFFFF) (value * 2 ^ 32)

-- The `switch` of `handle_mmio_write`.
unfoldable pub write_register : Device → ℕ → ℕ → ℕ → ℕ → Device
write_register d addr len value value64 =
    if addr == reg_control_offset
    then write_control d value
    else if addr == reg_dim_n_offset
    then record d { reg_dim_n = value }
    else if addr == reg_matrix_a_ptr_offset
    then record d { reg_matrix_a_ptr = write_low d.reg_matrix_a_ptr len value value64 }
    else if addr == reg_matrix_a_ptr_offset + 4
    then record d { reg_matrix_a_ptr = write_high d.reg_matrix_a_ptr value }
    else if addr == reg_matrix_b_ptr_offset
    then record d { reg_matrix_b_ptr = write_low d.reg_matrix_b_ptr len value value64 }
    else if addr == reg_matrix_b_ptr_offset + 4
    then record d { reg_matrix_b_ptr = write_high d.reg_matrix_b_ptr value }
    else if addr == reg_matrix_c_ptr_offset
    then record d { reg_matrix_c_ptr = write_low d.reg_matrix_c_ptr len value value64 }
    else if addr == reg_matrix_c_ptr_offset + 4
    then record d { reg_matrix_c_ptr = write_high d.reg_matrix_c_ptr value }
    else if addr == reg_int_status_offset
    then update_interrupt
        (record d { reg_int_status = bit_and d.reg_int_status (bit_not 32 value) })
    else if addr == reg_int_enable_offset
    then update_interrupt (record d { reg_int_enable = value })
    else d

-- `value` is loaded only from four bytes and `value64` only from eight.
unfoldable pub handle_mmio_write : Device → ℕ → List ℕ → ℕ → Device
unfolding write_register write_control write_low write_high update_interrupt
handle_mmio_write d addr data_bytes len =
    write_register d addr len (if len == 4 then from_le (take 4 data_bytes) else 0)
      (if len == 8 then from_le (take 8 data_bytes) else 0)

-- The `if` chain on the command.
unfoldable pub dispatch : Command → Device → Payload → ℕ → Device × List ℕ
unfolding handle_mmio_read handle_mmio_write
dispatch Command.read d trans behind =
    (d, handle_mmio_read d trans.address trans.buffer trans.length behind)
dispatch Command.write d trans behind =
    (handle_mmio_write d trans.address trans.buffer trans.length, trans.buffer)
dispatch Command.ignore d trans behind = (d, trans.buffer)

-- `behind` is the stack word that an eight-byte read of a 32-bit register copies.
unfoldable pub bar0_b_transport : ℕ → Device → Payload → ℕ → Outcome Device
unfolding dispatch
bar0_b_transport behind d trans delay =
    if not (trans.length == 4) && not (trans.length == 8)
    then record {
      state = d;
      trans = record trans { response = Response.generic_error };
      delay = delay;
    }
    else (let (d', bytes) = dispatch trans.command d trans behind in
        record {
          state = d';
          trans = record trans { buffer = bytes; response = Response.ok };
          delay = delay + 10;
        })
