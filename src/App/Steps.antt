-- ===== src/App/Steps.antt =====
-- The program's calls through the driver on any device, when the copies between user and kernel
-- memory succeed.
use pcie_systemc_linux.Prelude.{ℕ, ◌+◌, ◌≡◌, sym, some, List, length, get_or, ◌<◌, ◌*◌, ◌^◌, ◌-◌}
use pcie_systemc_linux.Prelude.Bytes.{
  AllWords, le_bytes, words_to_bytes, bytes_to_words-words_to_bytes,
}
use pcie_systemc_linux.Driver.Kernel.{IoctlAbi, UserSpace, Mmio, Code}
use pcie_systemc_linux.Driver.Ioctl.{
  set_matrix, set_opcode, get_result, fops, op1_offset, op2_offset, opcode_offset, result_offset,
  write_rows, read_rows,
}
use pcie_systemc_linux.App.Main.{Syscalls}

module _ (abi : IoctlAbi) {U B : Type 0} (space : UserSpace U) (io : Mmio B) (mmio : ℕ) where
  pub set_matrix-ok :
      (offset arg : ℕ) (u : U) (b : B) (words : List ℕ)
      → AllWords words
      → length words ≡ 16
      → space.copy_from_user u arg 64 ≡ (0, words_to_bytes words)
      → set_matrix abi space io mmio offset u b arg
        ≡ record { code = Code.ok; user = u; bus = write_rows io 4 (mmio + offset) 0 words b }
  unfolding set_matrix
  set_matrix-ok offset arg u b words bounded count copied =
      rw (copied, bytes_to_words-words_to_bytes words 16 bounded (sym count))

  pub set_opcode-ok :
      (arg : ℕ) (u : U) (b : B)
      → space.copy_from_user u arg 4 ≡ (0, le_bytes 4 1)
      → set_opcode abi space io mmio u b arg
        ≡ record { code = Code.ok; user = u; bus = io.iowrite32 b 1 (mmio + opcode_offset) }
  unfolding set_opcode
  set_opcode-ok arg u b copied = rw copied

  pub get_result-ok :
      (arg : ℕ) (u u' : U) (b b' : B) (words : List ℕ)
      → read_rows io 4 (mmio + result_offset) 0 b ≡ (words, b')
      → space.copy_to_user u arg (words_to_bytes words) ≡ (0, u')
      → get_result abi space io mmio u b arg ≡ record { code = Code.ok; user = u'; bus = b' }
  unfolding get_result
  get_result-ok arg u u' b b' words read copied = rw (read, copied)

-- What the C library's `ioctl` returns for the driver's code: 0, or -1 in 32 bits.
abbrev pub library_result : Code → ℕ
library_result Code.ok = 0
library_result Code.efault = 2 ^ 32 - 1
library_result Code.einval = 2 ^ 32 - 1

-- The file opens, `ioctl` on it is that of the driver's `fops`, and closing it changes nothing here.
-- What was copied to user memory would be copied back, and what would be copied from it is what
-- the process loads.
pub record OpensDriver (abi : IoctlAbi) {U B : Type 0} (space : UserSpace U) (io : Mmio B)
    (mmio : ℕ) (sys : Syscalls (U × B)) (fd : ℕ) : Type 0 where
  pub opens : (u : U) (b : B) → sys.open_device (u, b) ≡ (some fd, (u, b))
  pub calls :
      (u : U) (b : B) (cmd arg : ℕ)
      → let r = (fops abi space io mmio).unlocked_ioctl u b cmd arg in
        sys.ioctl (u, b) fd cmd arg ≡ (library_result r.code, (r.user, r.bus))
  pub closes : (s : U × B) → sys.close s fd ≡ s
  pub copies :
      (u u' : U) (addr : ℕ) (bytes : List ℕ)
      → space.copy_to_user u addr bytes ≡ (0, u')
      → space.copy_from_user u' addr (length bytes) ≡ (0, bytes)
  pub loads :
      (u : U) (b : B) (addr k : ℕ) (words : List ℕ)
      → AllWords words
      → space.copy_from_user u addr (4 * length words) ≡ (0, words_to_bytes words)
      → k < length words
      → sys.load_word (u, b) (addr + k * 4) ≡ get_or words k 0

-- The device after the program's calls that write: `A`, `B`, and the opcode.
module _ {B : Type 0} (io : Mmio B) (mmio : ℕ) (matrix_a : List ℕ) where
  abbrev pub bus1 : B → B
  bus1 b = write_rows io 4 (mmio + op1_offset) 0 matrix_a b

  abbrev pub bus2 : List ℕ → B → B
  bus2 matrix_b b = write_rows io 4 (mmio + op2_offset) 0 matrix_b (bus1 b)

  abbrev pub bus3 : List ℕ → B → B
  bus3 matrix_b b = io.iowrite32 (bus2 matrix_b b) 1 (mmio + opcode_offset)
