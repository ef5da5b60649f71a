-- ===== src/Driver/Lifecycle/Removed.antt =====
-- The device coming and going when a remove follows each probe, whatever the probe returned: the
-- kernel takes the 1 of a probe that failed for success.
use pcie_systemc_linux.Prelude.{◌==◌, List, [], ◌∷◌, ◌++◌, if◌then◌else◌}
use pcie_systemc_linux.Driver.Lifecycle.Probe.{Driver, Replies, pci_probe}
use pcie_systemc_linux.Driver.Lifecycle.Table.{pci_driver}
use pcie_systemc_linux.Driver.Lifecycle.Resources.{
  Resource, numbers, character_device, class, device_file, region, mapping, irq, acquired,
}
use pcie_systemc_linux.Driver.Lifecycle.Unwind.{loaded}
use pcie_systemc_linux.Driver.Lifecycle.Above.{Above}
use pcie_systemc_linux.Driver.Lifecycle.Failed.{absent, enabled_of}

-- The device appears, and disappears.
abbrev pub removal : Replies → Driver → Driver
removal r s = pci_driver.remove (pci_driver.probe r s).driver

abbrev pub removals : List Replies → Driver → Driver
removals [] s = s
removals (r ∷ rs) s = removals rs (removal r s)

-- What one of these leaves held, and what it gives back without holding it.
abbrev pub left_enabled : Replies → List Resource
left_enabled r = enabled_of (acquired (pci_probe r loaded).driver.calls)

abbrev pub given_back_twice : Replies → List Resource
given_back_twice r =
    if (pci_probe r loaded).code == 0
    then []
    else numbers
      ∷ character_device
      ∷ class
      ∷ device_file
      ∷ absent (region ∷ mapping ∷ irq ∷ []) (acquired (pci_probe r loaded).driver.calls)

abbrev pub all_of : (Replies → List Resource) → List Replies → List Resource
all_of f [] = []
all_of f (r ∷ rs) = all_of f rs ++ f r
