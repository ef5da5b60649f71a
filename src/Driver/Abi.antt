-- ===== src/Driver/Abi.antt =====
-- The encoding of ioctl numbers of include/uapi/asm-generic/ioctl.h, for the tests.
use pcie_systemc_linux.Prelude.{ℕ, ◌+◌, ◌*◌, ◌^◌, ◌<◌, ◌≡◌, refl, arith}
use pcie_systemc_linux.Driver.Kernel.{IoctlAbi, Direction, write, read, read_write}

abbrev pub bits_of : Direction → ℕ
bits_of write = 1
bits_of read = 2
bits_of read_write = 3

abbrev pub linux_ioc : Direction → ℕ → ℕ → ℕ → ℕ
linux_ioc d magic nr size = bits_of d * 2 ^ 30 + size * 2 ^ 16 + magic * 2 ^ 8 + nr

same_bits : (d d' : Direction) → bits_of d ≡ bits_of d' → d ≡ d'
same_bits write write e = refl
same_bits read read e = refl
same_bits read_write read_write e = refl
same_bits write _ e = absurd (omega arith)
same_bits read _ e = absurd (omega arith)
same_bits read_write _ e = absurd (omega arith)

pub linux_fields :
    (d d' : Direction) (magic nr size magic' nr' size' : ℕ)
    → (magic < 2 ^ 8) × (nr < 2 ^ 8) × (size < 2 ^ 14)
    → (magic' < 2 ^ 8) × (nr' < 2 ^ 8) × (size' < 2 ^ 14)
    → linux_ioc d magic nr size ≡ linux_ioc d' magic' nr' size'
    → (d ≡ d') × (magic ≡ magic') × (nr ≡ nr')
linux_fields d d' magic nr size magic' nr' size' h k e =
    (same_bits d d' (omega arith), omega arith, omega arith)

abbrev pub linux_abi : IoctlAbi
linux_abi = record { ioc = linux_ioc; ioc_fields = linux_fields }
