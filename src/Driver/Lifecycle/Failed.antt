-- ===== src/Driver/Lifecycle/Failed.antt =====
-- What a remove does after a probe that failed. `pci_probe` then returns 1, which the kernel takes
-- for success, so that the device stays with the driver until it is removed.
use pcie_systemc_linux.Prelude.{
  ◌≡◌, ◌≢◌, refl, inl, inr, Bool, Bool-cases, true, false, not, bit_and, ◌==◌, List, [], ◌∷◌,
  if◌then◌else◌,
}
use pcie_systemc_linux.Driver.Lifecycle.Probe.{
  Replies, Probed, pci_probe, pci_remove, check_resource, set_up_irq, set_up_pci, create_device,
}
use pcie_systemc_linux.Driver.Lifecycle.Resources.{
  Resource, numbers, character_device, class, device_file, enabled, region, mapping, irq, acquired,
  held, misreleased, is_missing,
}
use pcie_systemc_linux.Driver.Lifecycle.Unwind.{loaded, complete}

-- Those of some resources that are not held.
abbrev pub absent : (wanted held : List Resource) → List Resource
absent [] held = []
absent (k ∷ wanted) held =
    let rest = absent wanted held in if is_missing k held then k ∷ rest else rest

-- The enabled PCI device, if it was acquired.
abbrev pub enabled_of : (acquired : List Resource) → List Resource
enabled_of acquired = if is_missing enabled acquired then [] else enabled ∷ []

-- What a remove after a probe that failed gives back without holding it, and what stays held.
abbrev RemoveOfFailed : Probed → Type 0
RemoveOfFailed p =
    p.code ≢ 0
    → (misreleased (pci_remove p.driver).calls
        ≡ numbers
          ∷ character_device
          ∷ class
          ∷ device_file
          ∷ absent (region ∷ mapping ∷ irq ∷ []) (acquired p.driver.calls))
      × (held (pci_remove p.driver).calls ≡ enabled_of (acquired p.driver.calls))

check_resource_failed : (r : Replies) → RemoveOfFailed (check_resource r (complete r []))
unfolding check_resource pci_remove
check_resource_failed r =
    elim (Bool-cases (not (bit_and r.resource_flags r.ioresource_mem == r.ioresource_mem))) [
      | inl other ↦ rw other (λ h. (refl, refl))
      | inr memory ↦ rw memory (λ h. absurd (h refl))
    ]

pci_probe_failed :
    (r : Replies) (alloc add class_fails device_fails enable request irq_fails : Bool)
    → RemoveOfFailed (
        pci_probe
          (record r {
            alloc_failed = alloc;
            cdev_add_failed = add;
            class_failed = class_fails;
            device_failed = device_fails;
            enable_failed = enable;
            request_region_failed = request;
            request_irq_failed = irq_fails;
          })
          loaded)
unfolding pci_probe create_device set_up_pci set_up_irq pci_remove
pci_probe_failed r true add c d e q i h = (refl, refl)
pci_probe_failed r false true c d e q i h = (refl, refl)
pci_probe_failed r false false true d e q i h = (refl, refl)
pci_probe_failed r false false false true e q i h = (refl, refl)
pci_probe_failed r false false false false true q i h = (refl, refl)
pci_probe_failed r false false false false false true i h = (refl, refl)
pci_probe_failed r false false false false false false true h = (refl, refl)
pci_probe_failed r false false false false false false false h = check_resource_failed r h

pub pci_probe-RemoveOfFailed : (r : Replies) → RemoveOfFailed (pci_probe r loaded)
pci_probe-RemoveOfFailed r =
    pci_probe_failed r r.alloc_failed r.cdev_add_failed r.class_failed r.device_failed
      r.enable_failed r.request_region_failed r.request_irq_failed

-- A remove after a probe that failed, the first since the driver was loaded, gives back without
-- holding them all four resources of the character device, and those of the region, the mapping and
-- the interrupt that the probe did not acquire.
misreleased-pci_remove :
    (r : Replies)
    → (pci_probe r loaded).code ≢ 0
    → misreleased (pci_remove (pci_probe r loaded).driver).calls
      ≡ numbers
        ∷ character_device
        ∷ class
        ∷ device_file
        ∷ absent (region ∷ mapping ∷ irq ∷ []) (acquired (pci_probe r loaded).driver.calls)
misreleased-pci_remove r failed = (pci_probe-RemoveOfFailed r failed).0
