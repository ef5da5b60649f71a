-- ===== src/Device/Registers/Frame.antt =====
-- What an access of BAR0 leaves alone.
use pcie_systemc_linux.Prelude.{
  ℕ, ◌≡◌, ◌≢◌, refl, ◌⊎◌, inl, inr, not, ◌&&◌, ◌==◌, true, take, if_both, if◌then◌else◌, arith,
}
use pcie_systemc_linux.Prelude.Bytes.{from_le}
use pcie_systemc_linux.Tlm.{Payload, Outcome, Command, ignore}
use pcie_systemc_linux.Device.State.{Device}
use pcie_systemc_linux.Device.Mmio.{bar0_b_transport, dispatch, handle_mmio_write, write_register}
use pcie_systemc_linux.Device.Registers.Words.{
  Word, dim_n, a_low, a_high, b_low, b_high, c_low, c_high, int_enable, offset,
}

-- No word that software can write lies at the address, and the control register does not either.
abbrev pub IsReadOnly : ℕ → Type 0
IsReadOnly addr = (addr ≢ 0) × ((w : Word) → addr ≢ offset w) × (addr ≢ 0x28)

write_register-readonly :
    (d : Device) (addr len v v64 : ℕ) → IsReadOnly addr → write_register d addr len v v64 ≡ d
unfolding write_register
write_register-readonly d addr len v v64 (control, word, status) = ground (
  arith,
  word dim_n,
  word a_low,
  word a_high,
  word b_low,
  word b_high,
  word c_low,
  word c_high,
  word int_enable,
)

-- The commands that leave the device alone.
dispatch-frame :
    (c : Command) (d : Device) (trans : Payload) (behind : ℕ)
    → (c ≢ Command.write) ⊎ IsReadOnly trans.address
    → (dispatch c d trans behind).0 ≡ d
unfolding dispatch handle_mmio_write
dispatch-frame Command.read d trans behind h = refl
dispatch-frame ignore d trans behind h = refl
dispatch-frame Command.write d trans behind (inl h) = absurd (h refl)
dispatch-frame Command.write d trans behind (inr h) =
    write_register-readonly d trans.address trans.length
      (if trans.length == 4 then from_le (take 4 trans.buffer) else 0)
      (if trans.length == 8 then from_le (take 8 trans.buffer) else 0) h

-- A transaction that is refused for its length, a read, one that is neither a read nor a write,
-- and a write to STATUS or to an address at which there is no register change nothing in the
-- device.
pub bar0_b_transport-frame :
    (behind : ℕ) (d : Device) (trans : Payload) (delay : ℕ)
    → ((trans.length ≢ 4) × (trans.length ≢ 8))
      ⊎ (trans.command ≢ Command.write)
      ⊎ IsReadOnly trans.address
    → (bar0_b_transport behind d trans delay).state ≡ d
unfolding bar0_b_transport
bar0_b_transport-frame behind d trans delay (inl h) =
    let refused : (not (trans.length == 4) && not (trans.length == 8)) ≡ true = ground arith in
    rw refused refl
bar0_b_transport-frame behind d trans delay (inr h) =
    if_both (λ (x : Outcome Device). x.state ≡ d)
      (not (trans.length == 4) && not (trans.length == 8)) _ _ refl
      (dispatch-frame trans.command d trans behind h)
