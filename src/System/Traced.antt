-- ===== src/System/Traced.antt =====
-- Which registers the driver reads and writes, with the words.
use pcie_systemc_linux.Prelude.{ℕ, List, ◌∷◌}
use pcie_systemc_linux.Driver.Kernel.{Mmio}

pub data Access : Type 0 where
  read32 write32 : (addr value : ℕ) → Access

-- The accesses so far, the latest first.
abbrev pub traced : {B : Type 0} → Mmio B → Mmio (B × List Access)
traced io = record {
  ioread32 = λ s addr. (let (v, b) = io.ioread32 s.0 addr in (v, (b, read32 addr v ∷ s.1)));
  iowrite32 = λ s v addr. (io.iowrite32 s.0 v addr, write32 addr v ∷ s.1);
}
