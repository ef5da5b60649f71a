-- ===== src/Driver/Kernel.antt =====
-- What the driver takes from the kernel: the encoding of ioctl numbers, access to user memory, and
-- access to the device's registers. None of it is code of the repository, so each is a parameter.
use pcie_systemc_linux.Prelude.{ℕ, ◌^◌, ◌<◌, ◌≡◌, Bool, true, false, List}

-- `_IOW`, `_IOR` and `_IOWR`.
pub data Direction : Type 0 where
  write read read_write : Direction

-- `_IOC(direction, magic, nr, size)`. For fields within their widths the number tells its
-- direction, its magic and its sequence number.
pub record IoctlAbi : Type 0 where
  pub ioc : Direction → ℕ → ℕ → ℕ → ℕ
  pub ioc_fields :
      (d d' : Direction) (magic nr size magic' nr' size' : ℕ)
      → (magic < 2 ^ 8) × (nr < 2 ^ 8) × (size < 2 ^ 14)
      → (magic' < 2 ^ 8) × (nr' < 2 ^ 8) × (size' < 2 ^ 14)
      → ioc d magic nr size ≡ ioc d' magic' nr' size'
      → (d ≡ d') × (magic ≡ magic') × (nr ≡ nr')

abbrev pub iow : IoctlAbi → ℕ → ℕ → ℕ → ℕ
iow abi = abi.ioc Direction.write

abbrev pub ior : IoctlAbi → ℕ → ℕ → ℕ → ℕ
ior abi = abi.ioc Direction.read

-- User memory. A copy returns how many bytes it could not copy; from user space, also the bytes
-- that the kernel's buffer then holds.
pub record UserSpace (U : Type 0) : Type 0 where
  pub copy_from_user : U → ℕ → ℕ → ℕ × List ℕ
  pub copy_to_user : U → ℕ → List ℕ → ℕ × U

-- The mapped BAR. A read may change what stands behind it.
pub record Mmio (B : Type 0) : Type 0 where
  pub ioread32 : B → ℕ → ℕ × B
  pub iowrite32 : B → ℕ → ℕ → B

-- What `dev_ioctl` returns: 0, -EFAULT or -EINVAL.
pub data Code : Type 0 where
  ok efault einval : Code

-- `ret < 0` in the caller.
abbrev pub is_negative : Code → Bool
is_negative ok = false
is_negative efault = true
is_negative einval = true
