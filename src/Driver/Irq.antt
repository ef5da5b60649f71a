-- ===== src/Driver/Irq.antt =====
-- `irq_handler`.
use pcie_systemc_linux.Prelude.{ℕ, ◌+◌, ◌==◌, if◌then◌else◌}
use pcie_systemc_linux.Driver.Kernel.{Mmio}

abbrev pub io_irq_ack : ℕ
io_irq_ack = 0x64

abbrev pub io_irq_status : ℕ
io_irq_status = 0x24

pub data IrqReturn : Type 0 where
  irq_handled irq_none : IrqReturn

-- `devi` is the number at the pointer that the interrupt was requested with.
unfoldable pub irq_handler : {B : Type 0} → Mmio B → (mmio major : ℕ) → B → ℕ → IrqReturn × B
irq_handler io mmio major b devi =
    if devi == major
    then (let (irq_status, b') = io.ioread32 b (mmio + io_irq_status) in
        (irq_handled, io.iowrite32 b' irq_status (mmio + io_irq_ack)))
    else (irq_none, b)
