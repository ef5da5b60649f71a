-- ===== src/Driver/Tests.antt =====
-- The driver on a bus that notes the words written.
use pcie_systemc_linux.Prelude.{
  ℕ, ◌*◌, ◌^◌, ◌/◌, Bool, true, false, ◌≡◌, refl, List, [], ◌∷◌, ◌++◌, arith,
}
use pcie_systemc_linux.Driver.Lifecycle.Probe.{
  Driver, Replies, pci_enable_device, pci_probe, create_device, set_up_pci, set_up_irq,
}
use pcie_systemc_linux.Driver.Lifecycle.Resources.{
  held, enabled, region, mapping, irq, numbers, character_device, class, device_file,
}
use pcie_systemc_linux.Driver.Lifecycle.Table.{
  pci_driver, pci_register_driver, pci_unregister_driver, myinit, myexit,
}
use pcie_systemc_linux.Driver.Lifecycle.Removed.{given_back_twice}
use pcie_systemc_linux.Driver.Lifecycle.Unwind.{loaded, left_after, held-pci_probe}
use pcie_systemc_linux.Driver.Kernel.{UserSpace, Mmio, einval}
use pcie_systemc_linux.Driver.Chardev.{old_number, get_result, dev_ioctl-old_number}
use pcie_systemc_linux.Driver.Abi.{linux_abi}
use pcie_systemc_linux.Driver.Ioctl.{dev_ioctl, ioctl_set_op1_matrix}
use pcie_systemc_linux.Driver.Dispatch.{dev_ioctl_atomic}

abbrev noting : Mmio (List (ℕ × ℕ))
noting = record { ioread32 = λ b addr. (0, b); iowrite32 = λ b v addr. (addr, v) ∷ b }

-- User memory of which no byte can be copied.
abbrev unmapped : UserSpace ℕ
unmapped = record {
  copy_from_user = λ u addr len. (len, []);
  copy_to_user = λ u addr bytes. (64, u);
}

dev_ioctl_atomic_example :
    ((dev_ioctl linux_abi unmapped noting 0 5 [] (ioctl_set_op1_matrix linux_abi) 0).user ≡ 5)
    × ((dev_ioctl linux_abi unmapped noting 0 5 [] (ioctl_set_op1_matrix linux_abi) 0).bus ≡ [])
unfolding dev_ioctl
dev_ioctl_atomic_example =
    dev_ioctl_atomic linux_abi unmapped noting 0 5 [] 0 (ioctl_set_op1_matrix linux_abi)
      (omega arith) refl

-- A probe at which only the request of the interrupt fails.
abbrev replies : (irq_fails : Bool) → Replies
replies irq_fails = record {
  alloc_failed = false;
  dev_num = 251 * 2 ^ 20;
  major_of = λ n. n / 2 ^ 20;
  cdev_add_failed = false;
  class = 1;
  class_failed = false;
  device = 2;
  device_failed = false;
  enable_failed = false;
  request_region_failed = false;
  mapping = 0;
  interrupt_line_offset = 0x3C;
  interrupt_line = 11;
  request_irq_failed = irq_fails;
  resource_flags = 0x200;
  ioresource_mem = 0x200;
}

pci_probe-irq :
    held (pci_probe (replies true) loaded).driver.calls ≡ mapping ∷ region ∷ enabled ∷ []
unfolding pci_probe create_device set_up_pci set_up_irq
pci_probe-irq = refl

-- A driver that already holds the device as enabled.
abbrev holding : Driver
holding = record loaded { calls = pci_enable_device false ∷ [] }

held-pci_probe_example :
    held (pci_probe (replies true) holding).driver.calls
    ≡ left_after (pci_probe (replies true) loaded) ++ enabled ∷ []
held-pci_probe_example = held-pci_probe (replies true) holding

-- Two devices that the driver took, and between them one at which the interrupt failed.
abbrev coming_and_going : List Replies
coming_and_going = replies false ∷ replies true ∷ replies false ∷ []

given_back_twice_lem :
    given_back_twice (replies true) ≡ numbers ∷ character_device ∷ class ∷ device_file ∷ irq ∷ []
unfolding pci_probe create_device set_up_pci set_up_irq
given_back_twice_lem = refl

-- The module loaded without the driver having been registered, and unloaded.
unregistered :
    let (code, calls) = myinit true [] in
    (code ≡ 1)
    × (myexit calls ≡ pci_unregister_driver pci_driver ∷ pci_register_driver pci_driver true ∷ [])
unregistered = (refl, refl)

dev_ioctl-old_number_example :
    dev_ioctl linux_abi unmapped noting 0 5 [] (old_number linux_abi get_result) 0
    ≡ record { code = einval; user = 5; bus = [] }
dev_ioctl-old_number_example = dev_ioctl-old_number linux_abi unmapped noting 0 5 [] get_result 0
