-- ===== src/Driver/Lifecycle/Table.antt =====
-- What the driver registers with the PCI core: the devices that it is for, and its two functions;
-- and `myinit` and `myexit`, which register and unregister them.
use pcie_systemc_linux.Prelude.{ℕ, Bool, List, [], ◌∷◌, if◌then◌else◌}
use pcie_systemc_linux.Driver.Lifecycle.Probe.{Driver, Replies, Probed, pci_probe, pci_remove}

-- `struct pci_device_id`, its two fields that are set; the zero entry ends the table.
pub record PciDeviceId : Type 0 where
  pub vendor : ℕ
  pub device : ℕ

abbrev pub qemu_vendor_id : ℕ
qemu_vendor_id = 0x1234

abbrev pub edu_device_id : ℕ
edu_device_id = 0xABCD

abbrev pub pci_ids : List PciDeviceId
pci_ids =
    record { vendor = qemu_vendor_id; device = edu_device_id }
    ∷ record { vendor = 0; device = 0 }
    ∷ []

-- `struct pci_driver`, its fields that the driver sets, less its name.
pub record PciDriver : Type 0 where
  pub id_table : List PciDeviceId
  pub probe : Replies → Driver → Probed
  pub remove : Driver → Driver

abbrev pub pci_driver : PciDriver
pci_driver = record { id_table = pci_ids; probe = pci_probe; remove = pci_remove }

-- A call of the PCI core; `failed` is whether its result was negative.
pub data CoreCall : Type 0 where
  pci_register_driver : PciDriver → (failed : Bool) → CoreCall
  pci_unregister_driver : PciDriver → CoreCall

-- `myinit` and `myexit`, with the calls so far, the latest first.
abbrev pub myinit : (failed : Bool) → List CoreCall → ℕ × List CoreCall
myinit failed calls = (if failed then 1 else 0, pci_register_driver pci_driver failed ∷ calls)

abbrev pub myexit : List CoreCall → List CoreCall
myexit calls = pci_unregister_driver pci_driver ∷ calls
