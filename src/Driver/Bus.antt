-- ===== src/Driver/Bus.antt =====
-- Between the driver's mapping of BAR0 and a target of custom-endpoint stand QEMU, the remote
-- port and the PCIe controller, which are other projects. What the driver relies on is an
-- interface.
use pcie_systemc_linux.Prelude.{
  ℕ, zero, suc, ◌+◌, ◌-◌, ◌*◌, ◌^◌, ◌<◌, ◌≡◌, refl, ap, ap₂, List, [], ◌∷◌, ◌++◌, replicate, arith,
}
use pcie_systemc_linux.Prelude.Bytes.{le_bytes, from_le}
use pcie_systemc_linux.Tlm.{Command, Transport, request}
use pcie_systemc_linux.Driver.Kernel.{Mmio}
use pcie_systemc_linux.Driver.Ioctl.{read_row, read_rows}

-- The size of the BAR that the driver's comments name.
abbrev pub bar_size : ℕ
bar_size = 2 ^ 20

-- An access of four bytes in the mapping is one transaction of four bytes at the target, with the
-- offset into the BAR as its address.
pub record Reaches {S : Type 0} (transport : Transport S) (io : Mmio S) (mmio : ℕ) : Type 0 where
  pub reads :
      (s : S) (offset : ℕ)
      → offset < bar_size
      → let r = transport s (request Command.read offset (le_bytes 4 0) 4) 0 in
        io.ioread32 s (mmio + offset) ≡ (from_le r.trans.buffer, r.state)
  pub writes :
      (s : S) (offset v : ℕ)
      → offset < bar_size
      → io.iowrite32 s v (mmio + offset)
        ≡ (transport s (request Command.write offset (le_bytes 4 v) 4) 0).state

-- Nothing between the driver and the target.
abbrev pub direct : {S : Type 0} → ℕ → Transport S → Mmio S
direct mmio transport = record {
  ioread32 = λ s addr.
      (let r = transport s (request Command.read (addr - mmio) (le_bytes 4 0) 4) 0 in
        (from_le r.trans.buffer, r.state));
  iowrite32 =
      λ s v addr. (transport s (request Command.write (addr - mmio) (le_bytes 4 v) 4) 0).state;
}

pub direct-Reaches :
    {S : Type 0} (mmio : ℕ) (transport : Transport S)
    → Reaches transport (direct mmio transport) mmio
direct-Reaches {S = S} mmio transport = record {
  reads = λ s offset h.
      (let e : mmio + offset - mmio ≡ offset = omega arith in
        ap
          (λ a.
            (let r = transport s (request Command.read a (le_bytes 4 0) 4) 0 in
              (from_le r.trans.buffer, r.state)))
          e);
  writes = λ s offset v h.
      (let e : mmio + offset - mmio ≡ offset = omega arith in
        ap (λ a. (transport s (request Command.write a (le_bytes 4 v) 4) 0).state) e);
}

-- A window of sixteen words that all read alike, in every state.
module _ {B : Type 0} (io : Mmio B) (base word : ℕ)
    (alike : (b : B) (k : ℕ) → k < 16 → (io.ioread32 b (base + k * 4)).0 ≡ word) where
  read_row-replicate :
      (rounds i j : ℕ) (b : B)
      → i < 4
      → j + rounds < 5
      → (read_row io rounds base i j b).0 ≡ replicate rounds word
  unfolding read_row
  read_row-replicate zero i j b h k = refl
  read_row-replicate (suc rounds) i j b h k =
      rw (alike b (i * 4 + j) (omega arith))
        (ap (◌∷◌ word) (read_row-replicate rounds i (j + 1) _ h (omega arith)))

  -- `rounds` rows of four words.
  abbrev rows : ℕ → List ℕ
  rows zero = []
  rows (suc rounds) = replicate 4 word ++ rows rounds

  read_rows-rows :
      (rounds i : ℕ) (b : B) → i + rounds < 5 → (read_rows io rounds base i b).0 ≡ rows rounds
  unfolding read_rows
  read_rows-rows zero i b h = refl
  read_rows-rows (suc rounds) i b h =
      ap₂ ◌++◌ (read_row-replicate 4 i 0 b (omega arith) (omega arith))
        (read_rows-rows rounds (i + 1) _ (omega arith))

  pub read_rows-replicate : (b : B) → (read_rows io 4 base 0 b).0 ≡ replicate 16 word
  read_rows-replicate b = read_rows-rows 4 0 b (omega arith)
