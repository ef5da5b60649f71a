-- ===== src/Driver/Ioctl.antt =====
-- `dev_ioctl`. A 4x4 matrix is the list of its sixteen words, row by row.
use pcie_systemc_linux.Prelude.{
  ℕ, zero, suc, ◌+◌, ◌*◌, List, [], ◌∷◌, ◌++◌, ◌==◌, if◌then◌else◌, get_or, take,
}
use pcie_systemc_linux.Prelude.Bytes.{from_le, words_to_bytes, bytes_to_words}
use pcie_systemc_linux.Driver.Kernel.{IoctlAbi, iow, ior, UserSpace, Mmio, Code, ok, efault, einval}

abbrev pub cpcidev_magic : ℕ
cpcidev_magic = b'c'

module _ (abi : IoctlAbi) where
  abbrev pub ioctl_set_op1_matrix : ℕ
  ioctl_set_op1_matrix = iow abi cpcidev_magic 1 64

  abbrev pub ioctl_set_op2_matrix : ℕ
  ioctl_set_op2_matrix = iow abi cpcidev_magic 2 64

  abbrev pub ioctl_get_result : ℕ
  ioctl_get_result = ior abi cpcidev_magic 3 64

  abbrev pub ioctl_set_opcode : ℕ
  ioctl_set_opcode = iow abi cpcidev_magic 4 4

-- The offsets of the operands, the opcode and the result from `mmio`.
abbrev pub op1_offset : ℕ
op1_offset = 0x10

abbrev pub op2_offset : ℕ
op2_offset = 0x50

abbrev pub opcode_offset : ℕ
opcode_offset = 0x90

abbrev pub result_offset : ℕ
result_offset = 0xA0

-- User memory and the device after a call, and what it returned.
pub record Called (U B : Type 0) : Type 0 where
  pub code : Code
  pub user : U
  pub bus : B

module _ {B : Type 0} (io : Mmio B) where
  -- The `j` loop of a matrix that is written: `rounds` rounds from `j` on.
  unfoldable pub write_row : ℕ → ℕ → ℕ → ℕ → List ℕ → B → B
  write_row zero base i j kbuf b = b
  write_row (suc rounds) base i j kbuf b =
      write_row rounds base i (j + 1) kbuf
        (io.iowrite32 b (get_or kbuf (i * 4 + j) 0) (base + (i * 4 + j) * 4))

  -- The `i` loop.
  unfoldable pub write_rows : ℕ → ℕ → ℕ → List ℕ → B → B
  unfolding write_row
  write_rows zero base i kbuf b = b
  write_rows (suc rounds) base i kbuf b =
      write_rows rounds base (i + 1) kbuf (write_row 4 base i 0 kbuf b)

  -- The loops of `IOCTL_GET_RESULT`: the words read, in order.
  unfoldable pub read_row : ℕ → ℕ → ℕ → ℕ → B → List ℕ × B
  read_row zero base i j b = ([], b)
  read_row (suc rounds) base i j b =
      let (word, b') = io.ioread32 b (base + (i * 4 + j) * 4) in
      let (words, b'') = read_row rounds base i (j + 1) b' in (word ∷ words, b'')

  unfoldable pub read_rows : ℕ → ℕ → ℕ → B → List ℕ × B
  unfolding read_row
  read_rows zero base i b = ([], b)
  read_rows (suc rounds) base i b =
      let (row, b') = read_row 4 base i 0 b in
      let (rest, b'') = read_rows rounds base (i + 1) b' in (row ++ rest, b'')

module _ (abi : IoctlAbi) {U B : Type 0} (space : UserSpace U) (io : Mmio B) (mmio : ℕ) where
  -- `case IOCTL_SET_OP1_MATRIX` and `case IOCTL_SET_OP2_MATRIX`, which differ in the offset.
  unfoldable pub set_matrix : ℕ → U → B → ℕ → Called U B
  set_matrix offset u b uarg =
      let (left, bytes) = space.copy_from_user u uarg 64 in
      if left == 0
      then record {
        code = ok;
        user = u;
        bus = write_rows io 4 (mmio + offset) 0 (bytes_to_words 16 bytes) b;
      }
      else record { code = efault; user = u; bus = b }

  -- `case IOCTL_SET_OPCODE`
  unfoldable pub set_opcode : U → B → ℕ → Called U B
  set_opcode u b uarg =
      let (left, bytes) = space.copy_from_user u uarg 4 in
      if left == 0
      then record {
        code = ok;
        user = u;
        bus = io.iowrite32 b (from_le (take 4 bytes)) (mmio + opcode_offset);
      }
      else record { code = efault; user = u; bus = b }

  -- `case IOCTL_GET_RESULT`
  unfoldable pub get_result : U → B → ℕ → Called U B
  get_result u b uarg =
      let (kbuf, b') = read_rows io 4 (mmio + result_offset) 0 b in
      let (left, u') = space.copy_to_user u uarg (words_to_bytes kbuf) in
      if left == 0
      then record { code = ok; user = u'; bus = b' }
      else record { code = efault; user = u'; bus = b' }

  unfoldable pub dev_ioctl : U → B → ℕ → ℕ → Called U B
  unfolding set_matrix set_opcode get_result
  dev_ioctl u b cmd arg =
      if cmd == ioctl_set_op1_matrix abi
      then set_matrix op1_offset u b arg
      else if cmd == ioctl_set_op2_matrix abi
      then set_matrix op2_offset u b arg
      else if cmd == ioctl_set_opcode abi
      then set_opcode u b arg
      else if cmd == ioctl_get_result abi
      then get_result u b arg
      else record { code = einval; user = u; bus = b }

-- `read` and `write` move no byte and report none moved; `llseek` sets any position that it is
-- given.
abbrev pub file_read : ℕ → ℕ
file_read len = 0

abbrev pub file_write : ℕ → ℕ
file_write len = 0

-- The file's new position and the value returned.
abbrev pub llseek : ℕ → ℕ → ℕ → ℕ × ℕ
llseek position off whence = (off, off)

-- `struct file_operations`, its fields that the driver sets.
pub record FileOperations (U B : Type 0) : Type 0 where
  pub llseek : ℕ → ℕ → ℕ → ℕ × ℕ
  pub read : ℕ → ℕ
  pub unlocked_ioctl : U → B → ℕ → ℕ → Called U B
  pub write : ℕ → ℕ

abbrev pub fops :
    (abi : IoctlAbi) {U B : Type 0} (space : UserSpace U) (io : Mmio B) (mmio : ℕ)
    → FileOperations U B
fops abi space io mmio = record {
  llseek = llseek;
  read = file_read;
  unlocked_ioctl = dev_ioctl abi space io mmio;
  write = file_write;
}
