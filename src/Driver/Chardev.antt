-- ===== src/Driver/Chardev.antt =====
-- chardev.h, which the driver includes: an older interface, with another magic. Two of its macros
-- have the names of commands that the driver defines anew.
use pcie_systemc_linux.Prelude.{ℕ, ◌≡◌, ◌==◌, false, arith}
use pcie_systemc_linux.Driver.Kernel.{
  IoctlAbi, UserSpace, Mmio, Direction, write, read, read_write, einval,
}
use pcie_systemc_linux.Driver.Ioctl.{cpcidev_magic, dev_ioctl}
use pcie_systemc_linux.Driver.Numbers.{Fits, ioc-differ}

abbrev pub major_num : ℕ
major_num = 251

-- `IOCTL_SET_MSG` to `IOCTL_SET_OPCODE`, in the header's order.
pub data OldCommand : Type 0 where
  set_msg get_msg get_nth_byte get_op1 get_op2 get_opcode get_result : OldCommand
  set_op1 set_op2 set_opcode : OldCommand

-- The macro that makes the number, its second argument, and the size of its third: a pointer has
-- eight bytes and an `int` four.
abbrev pub direction_of : OldCommand → Direction
direction_of set_msg = read
direction_of get_msg = read
direction_of get_nth_byte = read_write
direction_of get_op1 = read
direction_of get_op2 = read
direction_of get_opcode = read
direction_of get_result = read
direction_of set_op1 = write
direction_of set_op2 = write
direction_of set_opcode = write

abbrev pub nr_of : OldCommand → ℕ
nr_of set_msg = 0
nr_of get_msg = 1
nr_of get_nth_byte = 2
nr_of get_op1 = 4
nr_of get_op2 = 5
nr_of get_opcode = 6
nr_of get_result = 7
nr_of set_op1 = 8
nr_of set_op2 = 9
nr_of set_opcode = 10

abbrev pub size_of : OldCommand → ℕ
size_of set_msg = 8
size_of get_msg = 4
size_of get_nth_byte = 4
size_of get_op1 = 8
size_of get_op2 = 8
size_of get_opcode = 8
size_of get_result = 8
size_of set_op1 = 4
size_of set_op2 = 4
size_of set_opcode = 4

abbrev pub old_number : IoctlAbi → OldCommand → ℕ
old_number abi c = abi.ioc (direction_of c) major_num (nr_of c) (size_of c)

old_Fits : (c : OldCommand) → Fits major_num (nr_of c) (size_of c)
old_Fits c = grind arith

-- No old command has a number of the driver's.
old_differ :
    (abi : IoctlAbi) (c : OldCommand) (d : Direction) (nr size : ℕ)
    → Fits cpcidev_magic nr size
    → (old_number abi c == abi.ioc d cpcidev_magic nr size) ≡ false
old_differ abi c d nr size h =
    ioc-differ abi (direction_of c) d major_num (nr_of c) (size_of c) cpcidev_magic nr size
      (old_Fits c) h (λ e. omega (arith, e.1))

-- A program that is compiled with the commands of chardev.h gets -EINVAL for each of them, and
-- neither the device nor its memory is touched.
pub dev_ioctl-old_number :
    (abi : IoctlAbi) {U B : Type 0} (space : UserSpace U) (io : Mmio B) (mmio : ℕ) (u : U) (b : B)
    (c : OldCommand) (arg : ℕ)
    → dev_ioctl abi space io mmio u b (old_number abi c) arg
      ≡ record { code = einval; user = u; bus = b }
unfolding dev_ioctl
dev_ioctl-old_number abi space io mmio u b c arg = rw (
  old_differ abi c write 1 64 (omega arith),
  old_differ abi c write 2 64 (omega arith),
  old_differ abi c write 4 4 (omega arith),
  old_differ abi c read 3 64 (omega arith),
)
