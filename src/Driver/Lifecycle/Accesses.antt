-- ===== src/Driver/Lifecycle/Accesses.antt =====
-- The accesses of the device's registers among the driver's calls.
use pcie_systemc_linux.Prelude.{
  ℕ, zero, suc, ◌+◌, ◌≡◌, refl, ap, inl, inr, Bool, Bool-cases, true, false, not, bit_and, ◌==◌,
  List, [], ◌∷◌, if◌then◌else◌,
}
use pcie_systemc_linux.Driver.Kernel.{Mmio}
use pcie_systemc_linux.Driver.Lifecycle.Probe.{
  Call, iowrite32, Driver, Replies, pci_probe, read_config, call, pci_read_config_byte,
  check_resource, set_up_irq, set_up_pci, create_device,
}
use pcie_systemc_linux.Driver.Lifecycle.Unwind.{loaded, complete}

module _ {B : Type 0} (io : Mmio B) where
  -- What the calls, the latest first, make of the device.
  abbrev pub performed : List Call → B → B
  performed [] b = b
  performed (iowrite32 value addr ∷ cs) b = io.iowrite32 (performed cs b) value addr
  performed (_ ∷ cs) b = performed cs b

  performed-read_config :
      (rounds i : ℕ) (s : Driver) (b : B)
      → performed (read_config rounds i s).calls b ≡ performed s.calls b
  performed-read_config zero i s b = refl
  performed-read_config (suc rounds) i s b =
      performed-read_config rounds (i + 1) (call s (pci_read_config_byte i)) b

  -- A probe that returns 0 has written one word, 0xAB at the start of the mapping, and one that
  -- fails has written none.
  abbrev WritesOnce : Replies → B → Type 0
  WritesOnce r b =
      performed (pci_probe r loaded).driver.calls b
      ≡ (if (pci_probe r loaded).code == 0 then io.iowrite32 b 0xAB r.mapping else b)

  check_resource_writes :
      (r : Replies) (b : B)
      → let p = check_resource r (complete r []) in
        performed p.driver.calls b ≡ (if p.code == 0 then io.iowrite32 b 0xAB r.mapping else b)
  unfolding check_resource
  check_resource_writes r b =
      elim (Bool-cases (not (bit_and r.resource_flags r.ioresource_mem == r.ioresource_mem))) [
        | inl other ↦ rw other refl
        | inr memory ↦
            rw memory (
              ap (λ c. io.iowrite32 c 0xAB r.mapping)
                (performed-read_config 64 0 (complete r []) b))
      ]

  by_failure :
      (r : Replies) (b : B) (alloc add class_fails device_fails enable request irq_fails : Bool)
      → WritesOnce
          (record r {
            alloc_failed = alloc;
            cdev_add_failed = add;
            class_failed = class_fails;
            device_failed = device_fails;
            enable_failed = enable;
            request_region_failed = request;
            request_irq_failed = irq_fails;
          })
          b
  unfolding pci_probe create_device set_up_pci set_up_irq
  by_failure r b true add c d e q i = refl
  by_failure r b false true c d e q i = refl
  by_failure r b false false true d e q i = refl
  by_failure r b false false false true e q i = refl
  by_failure r b false false false false true q i = refl
  by_failure r b false false false false false true i = refl
  by_failure r b false false false false false false true = refl
  by_failure r b false false false false false false false = check_resource_writes r b

  pub pci_probe-WritesOnce : (r : Replies) (b : B) → WritesOnce r b
  pci_probe-WritesOnce r b =
      by_failure r b r.alloc_failed r.cdev_add_failed r.class_failed r.device_failed r.enable_failed
        r.request_region_failed r.request_irq_failed
