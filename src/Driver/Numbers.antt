-- ===== src/Driver/Numbers.antt =====
-- The four command numbers of the driver differ.
use pcie_systemc_linux.Prelude.{ℕ, ◌^◌, ◌<◌, ◌≡◌, ◌≢◌, sym, false, ◌==◌, arith}
use pcie_systemc_linux.Driver.Kernel.{IoctlAbi, Direction, iow, write, read}
use pcie_systemc_linux.Driver.Ioctl.{
  cpcidev_magic, ioctl_set_op1_matrix, ioctl_set_op2_matrix, ioctl_get_result, ioctl_set_opcode,
}

pub ==_of_ne : (a b : ℕ) → a ≢ b → (a == b) ≡ false
==_of_ne a b h = ground arith

abbrev pub Fits : ℕ → ℕ → ℕ → Type 0
Fits magic nr size = (magic < 2 ^ 8) × (nr < 2 ^ 8) × (size < 2 ^ 14)

pub write≢read : write ≢ read
write≢read e = cc

module _ (abi : IoctlAbi) where
  -- Numbers of which one of the three fields differs.
  pub ioc-differ :
      (d d' : Direction) (magic nr size magic' nr' size' : ℕ)
      → Fits magic nr size
      → Fits magic' nr' size'
      → ¬ ((d ≡ d') × (magic ≡ magic') × (nr ≡ nr'))
      → (abi.ioc d magic nr size == abi.ioc d' magic' nr' size') ≡ false
  ioc-differ d d' magic nr size magic' nr' size' h k ne =
      ==_of_ne _ _ (λ e. ne (abi.ioc_fields d d' magic nr size magic' nr' size' h k e))

  -- The driver's own numbers, which share their magic.
  own_differ :
      (d d' : Direction) (nr size nr' size' : ℕ)
      → Fits cpcidev_magic nr size
      → Fits cpcidev_magic nr' size'
      → ¬ ((d ≡ d') × (nr ≡ nr'))
      → (abi.ioc d cpcidev_magic nr size == abi.ioc d' cpcidev_magic nr' size') ≡ false
  own_differ d d' nr size nr' size' h k ne =
      ioc-differ d d' cpcidev_magic nr size cpcidev_magic nr' size' h k (λ e. ne (e.0, e.2))

  pub op2-op1 : (ioctl_set_op2_matrix abi == ioctl_set_op1_matrix abi) ≡ false
  op2-op1 = own_differ write write 2 64 1 64 (omega arith) (omega arith) (λ e. omega (arith, e.1))

  pub opcode-op1 : (ioctl_set_opcode abi == ioctl_set_op1_matrix abi) ≡ false
  opcode-op1 = own_differ write write 4 4 1 64 (omega arith) (omega arith) (λ e. omega (arith, e.1))

  pub opcode-op2 : (ioctl_set_opcode abi == ioctl_set_op2_matrix abi) ≡ false
  opcode-op2 = own_differ write write 4 4 2 64 (omega arith) (omega arith) (λ e. omega (arith, e.1))

  pub result-iow :
      (nr size : ℕ)
      → Fits cpcidev_magic nr size
      → (ioctl_get_result abi == iow abi cpcidev_magic nr size) ≡ false
  result-iow nr size h =
      own_differ read write 3 64 nr size (omega arith) h (λ e. write≢read (sym e.0))
