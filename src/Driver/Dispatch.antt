-- ===== src/Driver/Dispatch.antt =====
-- `dev_ioctl` by command, and what it leaves alone when it fails.
use pcie_systemc_linux.Prelude.{ℕ, ◌≡◌, ◌≢◌, true, ==_self, arith}
use pcie_systemc_linux.Driver.Kernel.{IoctlAbi, UserSpace, Mmio, is_negative}
use pcie_systemc_linux.Driver.Numbers.{op2-op1, opcode-op1, opcode-op2, result-iow}
use pcie_systemc_linux.Driver.Ioctl.{
  ioctl_set_op1_matrix, ioctl_set_op2_matrix, ioctl_get_result, ioctl_set_opcode, set_matrix,
  set_opcode, get_result, dev_ioctl, op1_offset, op2_offset,
}

module _ (abi : IoctlAbi) {U B : Type 0} (space : UserSpace U) (io : Mmio B) (mmio : ℕ) (u : U)
    (b : B) (arg : ℕ) where
  pub dev_ioctl-op1 :
      dev_ioctl abi space io mmio u b (ioctl_set_op1_matrix abi) arg
      ≡ set_matrix abi space io mmio op1_offset u b arg
  unfolding dev_ioctl
  dev_ioctl-op1 = rw (==_self (ioctl_set_op1_matrix abi))

  pub dev_ioctl-op2 :
      dev_ioctl abi space io mmio u b (ioctl_set_op2_matrix abi) arg
      ≡ set_matrix abi space io mmio op2_offset u b arg
  unfolding dev_ioctl
  dev_ioctl-op2 = rw (op2-op1 abi, ==_self (ioctl_set_op2_matrix abi))

  pub dev_ioctl-opcode :
      dev_ioctl abi space io mmio u b (ioctl_set_opcode abi) arg
      ≡ set_opcode abi space io mmio u b arg
  unfolding dev_ioctl
  dev_ioctl-opcode = rw (opcode-op1 abi, opcode-op2 abi, ==_self (ioctl_set_opcode abi))

  pub dev_ioctl-result :
      dev_ioctl abi space io mmio u b (ioctl_get_result abi) arg
      ≡ get_result abi space io mmio u b arg
  unfolding dev_ioctl
  dev_ioctl-result = rw (
    result-iow abi 1 64 (omega arith),
    result-iow abi 2 64 (omega arith),
    result-iow abi 4 4 (omega arith),
    ==_self (ioctl_get_result abi),
  )

  -- A call that fails, whatever its command except reading the result, leaves the device and user
  -- memory as they were.
  pub dev_ioctl_atomic :
      (cmd : ℕ)
      → cmd ≢ ioctl_get_result abi
      → is_negative (dev_ioctl abi space io mmio u b cmd arg).code ≡ true
      → ((dev_ioctl abi space io mmio u b cmd arg).user ≡ u)
        × ((dev_ioctl abi space io mmio u b cmd arg).bus ≡ b)
  unfolding dev_ioctl
  dev_ioctl_atomic cmd ne failed = ground arith
